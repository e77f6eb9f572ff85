-- ===== src/Util/Cpio/Tests.antt =====
-- An archive with one file of two bytes and the trailer, at address 4096.
use wey_os.Base.{
  ℕ, ◌+◌, ◌<◌, ◌≡◌, inl, refl, none, some, List, [], ◌∷◌, ◌++◌, arith, length, take, replicate, ok,
  err, einval,
}
use wey_os.Util.Cpio.{
  align4, cpio_range_valid, cpio_parse_field, parse_from, digit, same, magic, trailer, header_size,
  CpioFileIter, content_at, entry_at, cpio_initramfs_iterate,
}
use wey_os.Util.Cpio.Field.{print}
use wey_os.Util.Cpio.Bounds.{IsInside, cpio_initramfs_iterate-IsInside}

-- A header with a file size and a name size.
abbrev header : ℕ → ℕ → List ℕ
header filesize namesize =
    magic
    ++ replicate 48 48
    ++ print 8 filesize
    ++ replicate 32 48
    ++ print 8 namesize
    ++ replicate 8 48

-- The file "a" with the content "hi".
abbrev entry : List ℕ
entry = header 2 2 ++ (97 ∷ 0 ∷ []) ++ (104 ∷ 105 ∷ 0 ∷ 0 ∷ [])

abbrev image : List ℕ
image = entry ++ header 0 11 ++ trailer ++ (0 ∷ 0 ∷ 0 ∷ [])

abbrev file : CpioFileIter
file = record {
  ino = 0;
  name = 4206;
  content_ptr = 4208;
  filesize = 2;
  mode = 0;
  uid = 0;
  gid = 0;
  nlink = 0;
  mtime = 0;
  devmajor = 0;
  devminor = 0;
  rdevmajor = 0;
  rdevminor = 0;
  check = 0;
}

first : cpio_initramfs_iterate 4096 image none ≡ ok (some (file, 4212))
unfolding cpio_initramfs_iterate entry_at content_at cpio_range_valid cpio_parse_field parse_from
    digit same align4
first = refl

second : cpio_initramfs_iterate 4096 image (some 4212) ≡ ok none
unfolding cpio_initramfs_iterate entry_at cpio_range_valid cpio_parse_field parse_from digit same
second = refl

cut_short : cpio_initramfs_iterate 4096 (take 115 image) none ≡ err einval
unfolding cpio_initramfs_iterate entry_at content_at cpio_range_valid cpio_parse_field parse_from
    digit same align4
cut_short = refl

cpio_initramfs_iterate-IsInside_example :
    (content : ℕ) × (4096 + header_size < content)
    × IsInside (4096 + header_size) content (4096 + length image) file 4212
cpio_initramfs_iterate-IsInside_example =
    cpio_initramfs_iterate-IsInside 4096 image none 4096 file 4212 (omega arith) (inl (refl, refl))
      first
