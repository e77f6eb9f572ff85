-- ===== src/Block/Partitions/Scan.antt =====
-- Which partitions a scan finds.
use wey_os.Base.{
  ℕ, zero, suc, ◌+◌, ◌≤◌, ◌<◌, ◌≡◌, refl, ◌∙◌, subst, ◌≢◌, Bool, true, not, ◌&&◌, Option, none,
  some, List, [], ◌∷◌, ◌==◌, if◌then◌else◌, Result, ok, err, enoent, arith, length,
}
use wey_os.Block.Partitions.{
  entry, type_empty, type_extended, mbr, first_kind, mbr_is_valid, partition_detect, Partition,
  partition_of, parse_from, parse_mbr_partitions, blk_scan_partitions, byte,
}

-- The device with a minor number.
abbrev pub with_minor : ℕ → List Partition → Option Partition
with_minor m [] = none
with_minor m (p ∷ ps) = let rest = with_minor m ps in if p.minor == m then some p else rest

-- An entry that holds a partition: neither empty nor extended.
abbrev pub is_used : List ℕ → ℕ → Bool
is_used sec i = not ((entry sec i).type == type_extended) && not ((entry sec i).type == type_empty)

module _ (memory : ℕ → Bool) (first : ℕ) (sec : List ℕ) where
  with_minor_before :
      (rounds i j : ℕ)
      → i < j
      → with_minor (first + i + 1) (parse_from memory first rounds j sec) ≡ none
  unfolding parse_from
  with_minor_before zero i j h = refl
  with_minor_before (suc rounds) i j h =
      let rest = with_minor_before rounds i (j + 1) (omega arith) in ground arith

  at_entry :
      (rounds i : ℕ)
      → with_minor (first + i + 1) (parse_from memory first (suc rounds) i sec)
        ≡ (if is_used sec i && memory i then some (partition_of first sec i) else none)
  unfolding parse_from
  at_entry rounds i = let rest = with_minor_before rounds i (i + 1) (omega arith) in ground arith

  past_entry :
      (rounds i j : ℕ)
      → j < i
      → with_minor (first + i + 1) (parse_from memory first (suc rounds) j sec)
        ≡ with_minor (first + i + 1) (parse_from memory first rounds (j + 1) sec)
  unfolding parse_from
  past_entry rounds i j h = ground arith

  with_minor-parse_from :
      (rounds i skipped j : ℕ)
      → i ≡ j + skipped
      → skipped < rounds
      → with_minor (first + i + 1) (parse_from memory first rounds j sec)
        ≡ (if is_used sec i && memory i then some (partition_of first sec i) else none)
  with_minor-parse_from zero i skipped j a b = absurd (omega arith)
  with_minor-parse_from (suc rounds) i zero j a b =
      subst
        (λ j'.
          with_minor (first + i + 1) (parse_from memory first (suc rounds) j' sec)
          ≡ (if is_used sec i && memory i then some (partition_of first sec i) else none))
        (let e : i ≡ j = omega arith in e) (at_entry rounds i)
  with_minor-parse_from (suc rounds) i (suc skipped) j a b =
      past_entry rounds i j (omega arith)
      ∙ with_minor-parse_from rounds i skipped (j + 1) (omega arith) (omega arith)

-- After `parse_mbr_partitions`, the device with minor number `first_minor + i + 1` is the partition
-- of entry `i` of the table, when that entry is neither empty nor extended and there was memory for
-- it, and there is none otherwise; for each of the four entries.
pub parse_mbr_partitions_lem :
    (memory : ℕ → Bool) (first : ℕ) (sec : List ℕ) (i : ℕ)
    → i < 4
    → with_minor (first + i + 1) (parse_mbr_partitions memory first sec)
      ≡ (if is_used sec i && memory i then some (partition_of first sec i) else none)
unfolding parse_mbr_partitions
parse_mbr_partitions_lem memory first sec i h =
    with_minor-parse_from memory first sec 4 i i 0 (omega arith) h

found_one :
    (first rounds i : ℕ) (sec : List ℕ)
    → first_kind rounds i sec ≡ ok mbr
    → 1 ≤ length (parse_from (λ k. true) first rounds i sec)
unfolding first_kind parse_from
found_one first zero i sec h = absurd (ground arith)
found_one first (suc rounds) i sec h = let rest = found_one first rounds (i + 1) sec in ground arith

found :
    (first : ℕ) (sec : List ℕ)
    → first_kind 4 0 sec ≡ ok mbr
    → 1 ≤ length (parse_mbr_partitions (λ k. true) first sec)
unfolding parse_mbr_partitions
found first sec h = found_one first 4 0 sec h

detected : (sec : List ℕ) → partition_detect sec ≡ ok tt → first_kind 4 0 sec ≡ ok mbr
unfolding partition_detect mbr_is_valid
detected sec h = ground arith

refused : (sec : List ℕ) → byte sec 510 ≢ 85 → partition_detect sec ≡ err enoent
unfolding partition_detect mbr_is_valid
refused sec h = ground arith

-- A scan that succeeds adds at least one partition while there is memory; a sector whose
-- byte 510 is not 0x55 is refused with ENOENT, and nothing is added.
blk_scan_partitions_lem :
    (first n : ℕ) (sec : List ℕ)
    → ((blk_scan_partitions (λ k. true) first (ok n) sec).0 ≡ ok tt
        → 1 ≤ length (blk_scan_partitions (λ k. true) first (ok n) sec).1)
      × (byte sec 510 ≢ 85 → blk_scan_partitions (λ k. true) first (ok n) sec ≡ (err enoent, []))
unfolding blk_scan_partitions
blk_scan_partitions_lem first n sec =
    (given (partition_detect sec) refl, λ h. rw (blk_scan_partitions, refused sec h) refl)
  where
    given :
        (r : Result (Unit {0}))
        → partition_detect sec ≡ r
        → (blk_scan_partitions (λ k. true) first (ok n) sec).0 ≡ ok tt
        → 1 ≤ length (blk_scan_partitions (λ k. true) first (ok n) sec).1
    given (ok u) e h = rw (blk_scan_partitions, e) (found first sec (detected sec e))
    given (err x) e h = absurd (ground arith)
