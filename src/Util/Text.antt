-- ===== src/Util/Text.antt =====
-- Memory and string routines, src/lib/string.c. Memory is a function from addresses to bytes, and
-- addresses do not wrap: an object does not reach over the end of the address space. A loop that
-- ends at a terminator runs on fuel, and `none` means that the fuel ran out.
pub mod Move
pub mod Terminated
mod Tests
use wey_os.Base.{
  ℕ, zero, suc, ◌+◌, ◌-◌, ◌%◌, ◌≤◌, ◌<◌, Bool, true, false, not, ◌&&◌, ◌||◌, Option, none, some,
  ltb, leb, ◌==◌, if◌then◌else◌,
}

abbrev pub Bytes : Type 0
Bytes = ℕ → ℕ

-- `*p = v`
abbrev pub store : Bytes → ℕ → ℕ → Bytes
store m p v a = if a == p then v else m a

-- `memset`: the bytes at `p + i, p + i + 1, …`, `n` of them.
pub set_from : Bytes → ℕ → ℕ → ℕ → Bytes
set_from m p c zero = m
set_from m p c (suc n) = set_from (store m p (c % 256)) (p + 1) c n

pub memset : Bytes → ℕ → ℕ → ℕ → Bytes
unfolding set_from
memset m p c n = set_from m p c n

-- `while (n--) *d++ = *s++`
pub copy_up : Bytes → ℕ → ℕ → ℕ → Bytes
copy_up m d s zero = m
copy_up m d s (suc n) = copy_up (store m d (m s)) (d + 1) (s + 1) n

-- `while (n--) *(d + n) = *(s + n)`
pub copy_down : Bytes → ℕ → ℕ → ℕ → Bytes
copy_down m d s zero = m
copy_down m d s (suc n) = copy_down (store m (d + n) (m (s + n))) d s n

-- `memcpy`: the memory, and the pointer that is returned. The loop upwards moves `d` itself.
pub memcpy : Bytes → ℕ → ℕ → ℕ → Bytes × ℕ
memcpy m dest src n =
    if ltb dest src then (copy_up m dest src n, dest + n) else (copy_down m dest src n, dest)

-- `memmove`
pub memmove : Bytes → ℕ → ℕ → ℕ → Bytes × ℕ
memmove m dest src n =
    if ltb dest src || leb (src + n) dest
    then (copy_up m dest src n, dest)
    else (copy_down m dest src n, dest)

-- `strlen`
pub strlen : ℕ → Bytes → ℕ → Option ℕ
strlen zero m p = none
strlen (suc fuel) m p =
    let rest = strlen fuel m (p + 1) in
    if m p == 0 then some 0 else elim rest [ none ↦ none | some n ↦ some (suc n) ]

-- `strnlen`, for a bound that is not negative.
pub strnlen : Bytes → ℕ → ℕ → ℕ
strnlen m p zero = 0
strnlen m p (suc n) = let rest = strnlen m (p + 1) n in if m p == 0 then 0 else suc rest

-- `strcpy`
pub strcpy : ℕ → Bytes → ℕ → ℕ → Option Bytes
strcpy fuel m dst src = elim (strlen fuel m src) [
  | none ↦ none
  | some n ↦ some (store (memcpy m dst src n).0 (dst + n) 0)
]

-- `strcat`: `sizeof(dst)` is the size of a pointer.
pub strcat : ℕ → Bytes → ℕ → ℕ → Option Bytes
strcat fuel m dst src = strcpy fuel m (dst + 4) src

-- The order of two characters, which are signed.
abbrev pub signed_lt : ℕ → ℕ → Bool
signed_lt a b = ltb ((a + 128) % 256) ((b + 128) % 256)

-- The sign of `strcmp`.
pub data Sign : Type 0 where
  less equal greater : Sign

pub strcmp : ℕ → Bytes → ℕ → ℕ → Option Sign
strcmp zero m s t = none
strcmp (suc fuel) m s t =
    let rest = strcmp fuel m (s + 1) (t + 1) in
    if not (m s == 0) && (m s == m t)
    then rest
    else some
        (if signed_lt (m t) (m s) then greater else if signed_lt (m s) (m t) then less else equal)
