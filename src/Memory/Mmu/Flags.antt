-- ===== src/Memory/Mmu/Flags.antt =====
-- The flags of a mapping.
use wey_os.Base.{ℕ, zero, suc, ◌+◌, ◌*◌, ◌/◌, ◌%◌, ◌≤◌, ◌≡◌, ◌||◌, ◌==◌, if◌then◌else◌, arith}
use wey_os.Memory.Mmu.{bit, mmu_flags_arch, arch_mmu_flags}

-- The bits of a sum of flags.
module _ (a b c d e : ℕ) (ha : a ≤ 1) (hb : b ≤ 1) (hc : c ≤ 1) (hd : d ≤ 1) (he : e ≤ 1) where
  abbrev all_flags : ℕ
  all_flags = 1 + 2 * a + 4 * b + 256 * c + 128 * d + 24 * e

  bit_one : all_flags / 2 % 2 ≡ a
  bit_one = omega arith

  bit_two : all_flags / 4 % 2 ≡ b
  bit_two = omega arith

  bit_three : all_flags / 8 % 2 ≡ e
  bit_three = omega arith

  bit_four : all_flags / 16 % 2 ≡ e
  bit_four = omega arith

  bit_seven : all_flags / 128 % 2 ≡ d
  bit_seven = omega arith

  bit_eight : all_flags / 256 % 2 ≡ c
  bit_eight = omega arith

  kept_flags : arch_mmu_flags all_flags ≡ 1 + 2 * a + 16 * e + 8 * c + 64 * d + 4 * b
  unfolding arch_mmu_flags
  kept_flags = rw (bit_one, bit_two, bit_three, bit_four, bit_seven, bit_eight) (last e he)
    where
      last :
          (x : ℕ)
          → x ≤ 1
          → all_flags / 1 % 2
              + 2 * a
              + (if (x == 1) || (x == 1) then 16 else 0)
              + 8 * c
              + 64 * d
              + 4 * b
            ≡ 1 + 2 * a + 16 * x + 8 * c + 64 * d + 4 * b
      last zero h = omega arith
      last (suc zero) h = omega arith
      last (suc (suc x)) h = absurd (omega arith)

-- The flags that an entry of a table stores come back: MEM_READ is added, MEM_CACHE and the flags
-- of regions are lost.
arch_mmu_flags-mmu_flags_arch :
    (f : ℕ)
    → arch_mmu_flags (mmu_flags_arch f)
      ≡ 1 + 2 * bit 1 f + 16 * bit 4 f + 8 * bit 3 f + 64 * bit 6 f + 4 * bit 2 f
unfolding mmu_flags_arch
arch_mmu_flags-mmu_flags_arch f =
    kept_flags (bit 1 f) (bit 2 f) (bit 3 f) (bit 6 f) (bit 4 f) (omega arith) (omega arith)
      (omega arith) (omega arith) (omega arith)
