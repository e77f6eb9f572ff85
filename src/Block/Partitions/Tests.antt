-- ===== src/Block/Partitions/Tests.antt =====
-- A table with an empty, an extended, a Linux and a FAT16 entry.
use wey_os.Base.{ℕ, ◌≡◌, refl, true, some, List, [], ◌∷◌, ◌++◌, replicate, ok, err, enotsup, arith}
use wey_os.Block.Partitions.{
  partition_detect, mbr_is_valid, parse_mbr_partitions, parse_from, first_kind,
}
use wey_os.Block.Partitions.Scan.{with_minor, parse_mbr_partitions_lem}

abbrev row : ℕ → ℕ → ℕ → List ℕ
row type start size =
    replicate 4 0 ++ (type ∷ replicate 3 0) ++ (start ∷ 8 ∷ 0 ∷ 0 ∷ []) ++ (size ∷ 0 ∷ 1 ∷ 0 ∷ [])

abbrev sector : List ℕ
sector = replicate 446 0 ++ row 0 0 0 ++ row 5 1 1 ++ row 131 2 16 ++ row 6 3 32 ++ (85 ∷ 170 ∷ [])

detected : partition_detect sector ≡ ok tt
unfolding partition_detect mbr_is_valid first_kind
detected = refl

parsed :
    parse_mbr_partitions (λ k. true) 0 sector
    ≡ record { minor = 3; start_sector = 2050; nr_sectors = 65552 }
      ∷ record { minor = 4; start_sector = 2051; nr_sectors = 65568 }
      ∷ []
unfolding parse_mbr_partitions parse_from
parsed = refl

protective :
    partition_detect (replicate 446 0 ++ row 238 1 1 ++ replicate 48 0 ++ (85 ∷ 170 ∷ []))
    ≡ err enotsup
unfolding partition_detect mbr_is_valid first_kind
protective = refl

parse_mbr_partitions_lem_example :
    with_minor 3 (parse_mbr_partitions (λ k. true) 0 sector)
    ≡ some (record { minor = 3; start_sector = 2050; nr_sectors = 65552 })
parse_mbr_partitions_lem_example = parse_mbr_partitions_lem (λ k. true) 0 sector 2 (omega arith)
