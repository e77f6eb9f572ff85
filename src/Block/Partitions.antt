-- ===== src/Block/Partitions.antt =====
-- The partition table of a disk, src/block/partitions.c. The first sector is the list of its bytes;
-- what `block_read` and the allocations answer are arguments. The messages are left out.
mod Scan
mod Tests
use wey_os.Base.{
  ℕ, zero, suc, ◌+◌, ◌*◌, Bool, true, false, not, ◌&&◌, ◌||◌, Option, none, some, List, [], ◌∷◌,
  ltb, ◌==◌, if◌then◌else◌, get_or, Result, ok, err, einval, enoent, enotsup, Errno,
}

-- A byte of the sector.
abbrev pub byte : List ℕ → ℕ → ℕ
byte sec i = get_or sec i 0

-- A little-endian word of the sector.
abbrev pub word : List ℕ → ℕ → ℕ
word sec i =
    byte sec i + 256 * byte sec (i + 1) + 65536 * byte sec (i + 2) + 16777216 * byte sec (i + 3)

-- `struct MBRPartitionEntry`, as far as it is read.
pub record MbrPartitionEntry : Type 0 where
  pub type : ℕ
  pub lba_start : ℕ
  pub total_sectors : ℕ

-- `parts[i]`, at 0x1BE.
abbrev pub entry : List ℕ → ℕ → MbrPartitionEntry
entry sec i = record {
  type = byte sec (446 + 16 * i + 4);
  lba_start = word sec (446 + 16 * i + 8);
  total_sectors = word sec (446 + 16 * i + 12);
}

-- `MBR_TYPE_EMPTY`
abbrev pub type_empty : ℕ
type_empty = 0

-- `MBR_TYPE_EXTENDED`
abbrev pub type_extended : ℕ
type_extended = 5

-- `MBR_TYPE_GPT_PROTECT`
abbrev pub type_gpt_protect : ℕ
type_gpt_protect = 238

-- What `mbr_is_valid` returns when it does not fail: OK or GPT_PARTITION.
pub data MbrKind : Type 0 where
  mbr : MbrKind
  gpt : MbrKind

-- The loop of `mbr_is_valid`.
pub first_kind : ℕ → ℕ → List ℕ → Result MbrKind
first_kind zero i sec = err enoent
first_kind (suc rounds) i sec =
    let rest = first_kind rounds (i + 1) sec in
    let t = (entry sec i).type in
    if t == type_gpt_protect
    then ok gpt
    else if t == type_extended
    then rest
    else if not (t == type_empty)
    then ok mbr
    else rest

-- `mbr_is_valid`
pub mbr_is_valid : List ℕ → Result MbrKind
mbr_is_valid sec =
    if not (byte sec 510 == 85) || not (byte sec 511 == 170) then err einval else first_kind 4 0 sec

-- `partition_detect`, whose only type is PARTITION_MBR.
pub partition_detect : List ℕ → Result (Unit {0})
partition_detect sec = elim (mbr_is_valid sec) [
  | ok k ↦ elim k [ mbr ↦ ok tt | gpt ↦ err enotsup ]
  | err e ↦ err enoent
]

-- A block device of a partition, `struct blkdev`.
pub record Partition : Type 0 where
  pub minor : ℕ
  pub start_sector : ℕ
  pub nr_sectors : ℕ

-- The device of entry `i`.
abbrev pub partition_of : ℕ → List ℕ → ℕ → Partition
partition_of first_minor sec i = record {
  minor = first_minor + i + 1;
  start_sector = (entry sec i).lba_start;
  nr_sectors = (entry sec i).total_sectors;
}

-- The loop of `parse_mbr_partitions`: the devices that it appends to the disk.
pub parse_from : (ℕ → Bool) → ℕ → ℕ → ℕ → List ℕ → List Partition
parse_from memory first_minor zero i sec = []
parse_from memory first_minor (suc rounds) i sec =
    let rest = parse_from memory first_minor rounds (i + 1) sec in
    let t = (entry sec i).type in
    if t == type_extended
    then rest
    else if t == type_empty
    then rest
    else if not (memory i)
    then rest
    else partition_of first_minor sec i ∷ rest

-- `parse_mbr_partitions`
pub parse_mbr_partitions : (ℕ → Bool) → ℕ → List ℕ → List Partition
parse_mbr_partitions memory first_minor sec = parse_from memory first_minor 4 0 sec

-- `blk_scan_partitions`, after `block_read` has returned with the sector: the result and the devices
-- that were added.
pub blk_scan_partitions : (ℕ → Bool) → ℕ → Result ℕ → List ℕ → Result (Unit {0}) × List Partition
blk_scan_partitions memory first_minor read sec = elim read [
  | err e ↦ (err e, [])
  | ok n ↦ elim (partition_detect sec) [
    | err e ↦ (err e, [])
    | ok u ↦ (ok tt, parse_mbr_partitions memory first_minor sec)
  ]
]
