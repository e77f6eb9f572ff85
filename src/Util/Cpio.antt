-- ===== src/Util/Cpio.antt =====
-- The cpio archive of the initial file system, src/lib/cpio.c. The archive is the list of its bytes,
-- which stand from the address `start` on; addresses, `uintptr_t` and `size_t` are 32 bits wide.
pub mod Field
pub mod Bounds
mod Tests
use wey_os.Base.{
  ℕ, zero, suc, ◌+◌, ◌-◌, ◌*◌, ◌%◌, ◌^◌, Bool, true, false, not, ◌&&◌, Option, none, some, List, [],
  ◌∷◌, ltb, leb, ◌==◌, if◌then◌else◌, length, get_or, take, drop, Result, ok, err, einval, erange,
}

abbrev pub u32 : ℕ
u32 = 2 ^ 32

-- `UINTPTR_MAX`
abbrev pub uintptr_max : ℕ
uintptr_max = u32 - 1

-- `align4`
pub align4 : ℕ → ℕ
align4 p = (p + (4 - p % 4) % 4) % u32

-- `cpio_range_valid`
pub cpio_range_valid : ℕ → ℕ → ℕ → Bool
cpio_range_valid start end len = leb len ((u32 + end - start) % u32)

-- What a character adds to `value` in `cpio_parse_field`; another character adds nothing.
pub digit : ℕ → ℕ
digit c =
    if leb 48 c && leb c 57
    then c - 48
    else if leb 65 c && leb c 70
    then c - 55
    else if leb 97 c && leb c 102
    then c - 87
    else 0

-- The loop of `cpio_parse_field`. The low bits of `value` are clear after the shift, so `|=` adds.
pub parse_from : ℕ → List ℕ → ℕ
parse_from value [] = value
parse_from value (c ∷ cs) = parse_from (value * 16 % u32 + digit c) cs

-- `cpio_parse_field`
pub cpio_parse_field : List ℕ → ℕ
cpio_parse_field field = parse_from 0 field

-- `struct cpio_header`, a list of its 110 bytes: the field that starts at a byte.
abbrev pub field : List ℕ → ℕ → List ℕ
field header i = take 8 (drop i header)

-- `struct cpio_file_iter`; pointers are addresses.
pub record CpioFileIter : Type 0 where
  pub ino : ℕ
  pub name : ℕ
  pub content_ptr : ℕ
  pub filesize : ℕ
  pub mode : ℕ
  pub uid : ℕ
  pub gid : ℕ
  pub nlink : ℕ
  pub mtime : ℕ
  pub devmajor : ℕ
  pub devminor : ℕ
  pub rdevmajor : ℕ
  pub rdevminor : ℕ
  pub check : ℕ

-- `memcmp(a, b, n) == 0`, of bytes that are there.
pub same : List ℕ → List ℕ → Bool
same [] [] = true
same [] (y ∷ ys) = false
same (x ∷ xs) [] = false
same (x ∷ xs) (y ∷ ys) = let rest = same xs ys in (x == y) && rest

-- "070701"
abbrev pub magic : List ℕ
magic = 48 ∷ 55 ∷ 48 ∷ 55 ∷ 48 ∷ 49 ∷ []

-- "TRAILER!!!" and its terminator.
abbrev pub trailer : List ℕ
trailer = 84 ∷ 82 ∷ 65 ∷ 73 ∷ 76 ∷ 69 ∷ 82 ∷ 33 ∷ 33 ∷ 33 ∷ 0 ∷ []

-- `sizeof(struct cpio_header)`
abbrev pub header_size : ℕ
header_size = 110

-- What an entry says of its file.
abbrev pub file_of : List ℕ → ℕ → ℕ → CpioFileIter
file_of header name content_ptr = record {
  ino = cpio_parse_field (field header 6);
  name = name;
  content_ptr = content_ptr;
  filesize = cpio_parse_field (field header 54);
  mode = cpio_parse_field (field header 14);
  uid = cpio_parse_field (field header 22);
  gid = cpio_parse_field (field header 30);
  nlink = cpio_parse_field (field header 38);
  mtime = cpio_parse_field (field header 46);
  devmajor = cpio_parse_field (field header 62);
  devminor = cpio_parse_field (field header 70);
  rdevmajor = cpio_parse_field (field header 78);
  rdevminor = cpio_parse_field (field header 86);
  check = cpio_parse_field (field header 102);
}

-- The end of `cpio_initramfs_iterate`: the content at `content`, and the new cursor.
pub content_at : List ℕ → ℕ → ℕ → ℕ → Result (Option (CpioFileIter × ℕ))
content_at header name content end =
    let filesize = cpio_parse_field (field header 54) in
    if ltb end content
    then err erange
    else if not (cpio_range_valid content end filesize)
    then err einval
    else if ltb end (align4 (content + filesize))
    then err einval
    else ok (some (file_of header name content, align4 (content + filesize)))

-- The part of `cpio_initramfs_iterate` behind the computation of `cur`: `ok none` is the 0 at the
-- trailer, `ok (some (file, cursor))` the 1. It reads nothing before the archive, so `cur` is not
-- below `start`.
pub entry_at : ℕ → List ℕ → ℕ → Result (Option (CpioFileIter × ℕ))
entry_at start image cur =
    let end = start + length image in
    let header = drop (cur - start) image in
    let namesize = cpio_parse_field (field header 94) in
    let name = drop header_size header in
    if not (cpio_range_valid cur end header_size)
    then err einval
    else if not (same (take 6 header) magic)
    then err einval
    else if namesize == 0
    then err einval
    else if not (cpio_range_valid (cur + header_size) end namesize)
    then err einval
    else if not (get_or name (namesize - 1) 1 == 0)
    then err einval
    else if (namesize == 11) && same (take 11 name) trailer
    then ok none
    else content_at header (cur + header_size) (align4 (cur + header_size + namesize)) end

-- `cpio_initramfs_iterate`, with no argument NULL; the cursor is `none` at first.
pub cpio_initramfs_iterate : ℕ → List ℕ → Option ℕ → Result (Option (CpioFileIter × ℕ))
cpio_initramfs_iterate start image cursor =
    if ltb (uintptr_max - start) (length image)
    then err erange
    else elim cursor [ none ↦ entry_at start image start | some cur ↦ entry_at start image cur ]
