-- ===== src/Util/Cpio/Field.antt =====
-- A number that is printed as eight hexadecimal digits is parsed back.
use wey_os.Base.{
  ℕ, zero, suc, ◌+◌, ◌*◌, ◌/◌, ◌%◌, ◌<◌, ◌≡◌, refl, ap₂, ◌∙◌, List, [], ◌∷◌, ◌++◌, ltb,
  if◌then◌else◌, arith,
}
use wey_os.Util.Cpio.{u32, digit, parse_from, cpio_parse_field}

-- The digit of a number below sixteen, in upper case.
abbrev pub hex : ℕ → ℕ
hex d = if ltb d 10 then 48 + d else 55 + d

-- The last `n` hexadecimal digits of a number.
abbrev pub print : ℕ → ℕ → List ℕ
print zero v = []
print (suc n) v = print n (v / 16) ++ (hex (v % 16) ∷ [])

digit-hex : (d : ℕ) → d < 16 → digit (hex d) ≡ d
unfolding digit
digit-hex d h = ground arith

parse_from-snoc :
    (v : ℕ) (xs : List ℕ) (c : ℕ)
    → parse_from v (xs ++ (c ∷ [])) ≡ parse_from v xs * 16 % u32 + digit c
unfolding parse_from
parse_from-snoc v [] c = refl
parse_from-snoc v (x ∷ xs) c = parse_from-snoc (v * 16 % u32 + digit x) xs c

-- How many numbers have `n` digits.
abbrev capacity : ℕ → ℕ
capacity zero = 1
capacity (suc n) = 16 * capacity n

parse_from-print : (n v : ℕ) → v < capacity n → v < u32 → parse_from 0 (print n v) ≡ v
unfolding parse_from
parse_from-print zero v k h = omega arith
parse_from-print (suc n) v k h =
    let d = digit-hex (v % 16) (omega arith) in
    let r = parse_from-print n (v / 16) (omega arith) (omega arith) in
    parse_from-snoc 0 (print n (v / 16)) (hex (v % 16))
    ∙ ap₂ (λ a b. a * 16 % u32 + b) r d
    ∙ (omega arith)

-- A 32-bit number that is printed as eight hexadecimal digits is what `cpio_parse_field` reads.
cpio_parse_field-print : (v : ℕ) → v < u32 → cpio_parse_field (print 8 v) ≡ v
unfolding cpio_parse_field
cpio_parse_field-print v h = parse_from-print 8 v (let c : capacity 8 ≡ u32 = refl in omega arith) h
