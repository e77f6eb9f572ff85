-- ===== src/Util/Cpio/Bounds.antt =====
-- What an entry points to lies inside the archive, and every entry moves the cursor on.
use wey_os.Base.{
  ℕ, ◌+◌, ◌-◌, ◌%◌, ◌≤◌, ◌<◌, ◌≡◌, refl, ap, sym, ◌∙◌, ◌⊎◌, inl, inr, Bool, true, false, not, ◌&&◌,
  Option, none, some, List, ltb, ◌==◌, if◌then◌else◌, arith, length, get_or, take, drop, Result,
  Errno, ok, err, einval, erange,
}
use wey_os.Util.Cpio.{
  u32, uintptr_max, align4, cpio_range_valid, cpio_parse_field, field, CpioFileIter, same, magic,
  trailer, header_size, file_of, content_at, entry_at, cpio_initramfs_iterate,
}

pub align4_lem : (p : ℕ) → p + 3 < u32 → (p ≤ align4 p) × (align4 p < p + 4) × (align4 p % 4 ≡ 0)
unfolding align4
align4_lem p h = (omega arith, omega arith, omega arith)

range_lem :
    (start end len : ℕ)
    → start ≤ end
    → end < u32
    → not (cpio_range_valid start end len) ≡ false
    → start + len ≤ end
unfolding cpio_range_valid
range_lem start end len a b v = ground arith

ltb_false→le : (a b : ℕ) → ltb a b ≡ false → b ≤ a
ltb_false→le a b h = ground arith

nonzero : (n : ℕ) → (n == 0) ≡ false → 0 < n
nonzero n h = ground arith

same_cursor : {c cur : ℕ} → some c ≡ some cur → cur ≡ c
same_cursor h = ground arith

-- A check that did not fail.
passed :
    {A : Type 0} {y : A} (e : Errno) (b : Bool) (x : Result A)
    → (if b then err e else x) ≡ ok y
    → (b ≡ false) × (x ≡ ok y)
passed e true x h = absurd (ground arith)
passed e false x h = (refl, h)

-- The file and the cursor of a result that has them.
abbrev found : CpioFileIter × ℕ → Result (Option (CpioFileIter × ℕ)) → CpioFileIter × ℕ
found d (err e) = d
found d (ok none) = d
found d (ok (some x)) = x

-- The trailer has neither.
not_trailer :
    {A : Type 0} {y : A} (b : Bool) (x : Result (Option A))
    → (if b then ok none else x) ≡ ok (some y)
    → x ≡ ok (some y)
not_trailer true x h = absurd (ground arith)
not_trailer false x h = h

-- The content of an entry and the cursor behind it, for a name that starts at `name` and ends
-- before `content`.
pub record IsInside (name content end : ℕ) (f : CpioFileIter) (next : ℕ) : Type 0 where
  pub at_name : f.name ≡ name
  pub after_name : f.content_ptr ≡ content
  pub inside : f.content_ptr + f.filesize ≤ next
  pub close : next < f.content_ptr + f.filesize + 4
  pub in_archive : next ≤ end
  pub aligned : next % 4 ≡ 0

content_at-IsInside :
    (header : List ℕ) (name content end : ℕ) (f : CpioFileIter) (next : ℕ)
    → end + 3 < u32
    → content_at header name content end ≡ ok (some (f, next))
    → (content ≤ end) × IsInside name content end f next
unfolding content_at
content_at-IsInside header name content end f next small e =
    let filesize = cpio_parse_field (field header 54) in
    let next' = align4 (content + filesize) in
    let x₃ : Result (Option (CpioFileIter × ℕ)) = ok (some (file_of header name content, next')) in
    let x₂ = if ltb end next' then err einval else x₃ in
    let x₁ = if not (cpio_range_valid content end filesize) then err einval else x₂ in
    let (a, e₁) = passed erange (ltb end content) x₁ e in
    let (b, e₂) = passed einval (not (cpio_range_valid content end filesize)) x₂ e₁ in
    let (c, e₃) = passed einval (ltb end next') x₃ e₂ in
    let g : ◌≡◌ {A = CpioFileIter × ℕ} (file_of header name content, next') (f, next) =
      ap (found (f, next)) e₃ in
    let d = ltb_false→le end content a in
    let r = range_lem content end filesize d (omega arith) b in
    let size : filesize ≡ f.filesize = ap (λ x. x.0.filesize) g in
    let ptr : content ≡ f.content_ptr = ap (λ x. x.0.content_ptr) g in
    let to : next' ≡ next = ap (λ x. x.1) g in
    let l = align4_lem (content + filesize) (omega arith) in
    (
      d,
      record {
        at_name = ap (λ x. x.0.name) (sym g);
        after_name = sym ptr;
        inside = omega arith;
        close = omega arith;
        in_archive = (let k = ltb_false→le end next' c in omega arith);
        aligned = ap (λ n. n % 4) (sym to) ∙ l.2;
      },
    )

entry_at-IsInside :
    (start : ℕ) (image : List ℕ) (cur : ℕ) (f : CpioFileIter) (next : ℕ)
    → start + length image + 3 < u32
    → cur ≤ start + length image
    → entry_at start image cur ≡ ok (some (f, next))
    → (content : ℕ) × (cur + header_size < content)
      × IsInside (cur + header_size) content (start + length image) f next
unfolding entry_at
entry_at-IsInside start image cur f next small low e =
    let end = start + length image in
    let header = drop (cur - start) image in
    let namesize = cpio_parse_field (field header 94) in
    let name = drop header_size header in
    let content = align4 (cur + header_size + namesize) in
    let x₆ = content_at header (cur + header_size) content end in
    let x₅ : Result (Option (CpioFileIter × ℕ)) =
      if (namesize == 11) && same (take 11 name) trailer then ok none else x₆ in
    let x₄ = if not (get_or name (namesize - 1) 1 == 0) then err einval else x₅ in
    let x₃ = if not (cpio_range_valid (cur + header_size) end namesize) then err einval else x₄ in
    let x₂ = if namesize == 0 then err einval else x₃ in
    let x₁ = if not (same (take 6 header) magic) then err einval else x₂ in
    let (a, e₁) = passed einval (not (cpio_range_valid cur end header_size)) x₁ e in
    let (b, e₂) = passed einval (not (same (take 6 header) magic)) x₂ e₁ in
    let (c, e₃) = passed einval (namesize == 0) x₃ e₂ in
    let (d, e₄) = passed einval (not (cpio_range_valid (cur + header_size) end namesize)) x₄ e₃ in
    let (k, e₅) = passed einval (not (get_or name (namesize - 1) 1 == 0)) x₅ e₄ in
    let e₆ = not_trailer ((namesize == 11) && same (take 11 name) trailer) x₆ e₅ in
    let h = range_lem cur end header_size low (omega arith) a in
    let n = range_lem (cur + header_size) end namesize h (omega arith) d in
    let pos : 0 < namesize = nonzero namesize c in
    let l = align4_lem (cur + header_size + namesize) (omega arith) in
    let (i, r) = content_at-IsInside header (cur + header_size) content end f next small e₆ in
    (content, (let m = l.0 in omega arith), r)

-- When `cpio_initramfs_iterate` returns 1, the name stands behind the header at the cursor, the
-- content behind the name, and the new cursor, a multiple of four, behind the content by less than
-- four bytes and not behind the archive: nothing outside of it is pointed to, and the cursor has
-- moved on by more than the size of a header. This is for a cursor that is NULL, and so the start of
-- the archive, or points between its start and its end, and for an archive that ends at least four
-- bytes below 2^32.
pub cpio_initramfs_iterate-IsInside :
    (start : ℕ) (image : List ℕ) (cursor : Option ℕ) (cur : ℕ) (f : CpioFileIter) (next : ℕ)
    → start + length image + 3 < u32
    → ((cursor ≡ none) × (cur ≡ start))
      ⊎ ((cursor ≡ some cur) × (start ≤ cur) × (cur ≤ start + length image))
    → cpio_initramfs_iterate start image cursor ≡ ok (some (f, next))
    → (content : ℕ) × (cur + header_size < content)
      × IsInside (cur + header_size) content (start + length image) f next
unfolding cpio_initramfs_iterate
cpio_initramfs_iterate-IsInside start image none cur f next small (inl (a, b)) e =
    entry_at-IsInside start image cur f next small (omega arith) (
      ap (λ c. entry_at start image c) b
      ∙ (passed erange (ltb (uintptr_max - start) (length image)) (entry_at start image start) e).1)
cpio_initramfs_iterate-IsInside start image none cur f next small (inr (a, after, b)) e =
    absurd (ground arith)
cpio_initramfs_iterate-IsInside start image (some c) cur f next small (inl (a, b)) e =
    absurd (ground arith)
cpio_initramfs_iterate-IsInside start image (some c) cur f next small (inr (a, after, b)) e =
    entry_at-IsInside start image cur f next small b (
      ap (λ x. entry_at start image x) (same_cursor a)
      ∙ (passed erange (ltb (uintptr_max - start) (length image)) (entry_at start image c) e).1)
