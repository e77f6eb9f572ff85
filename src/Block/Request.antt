-- ===== src/Block/Request.antt =====
-- Requests and their queue, src/block/blk_request.c, src/block/blk_elevator.c, and the synchronous
-- read of src/block/partitions.c. A queue is the list of its requests from `head` to `tail`. The
-- driver's `submit_request` is an argument that returns a status, and does not call back into the
-- queue. Sectors are 64 bits wide. Whether an allocation succeeds is an argument.
pub mod Queue
mod Tests
use wey_os.Base.{
  ℕ, zero, suc, ◌+◌, ◌-◌, ◌%◌, ◌^◌, Bool, true, false, not, Option, none, some, List, [], ◌∷◌, ◌++◌,
  ltb, leb, if◌then◌else◌, length, Result, ok, err, einval, enomem, erange,
}

-- `struct blkdev`, as far as requests read it.
pub record BlkDev : Type 0 where
  pub has_disk : Bool
  pub start_sector : ℕ
  pub nr_sectors : ℕ

-- `struct bio`. Its device is an argument where it is used.
pub record Bio : Type 0 where
  pub sector : ℕ
  pub nr_sectors : ℕ
  pub op : ℕ

-- `struct request`, with its one bio.
pub record Request : Type 0 where
  pub sector : ℕ
  pub nr_sectors : ℕ
  pub op : ℕ
  pub bio : Bio

abbrev pub sector_mod : ℕ
sector_mod = 2 ^ 64

-- `bio_to_request`, for a bio and a device that are not NULL.
pub bio_to_request : Bool → BlkDev → Bio → Result Request
bio_to_request memory bdev bio =
    if not bdev.has_disk
    then err einval
    else if ltb bio.sector bdev.start_sector
    then err einval
    else if ltb bdev.nr_sectors ((bio.sector - bdev.start_sector + bio.nr_sectors) % sector_mod)
    then err erange
    else if memory
    then ok (record { sector = bio.sector; nr_sectors = bio.nr_sectors; op = bio.op; bio = bio })
    else err enomem

-- `fifo_insert`
pub insert : List Request → Request → List Request
insert q rq = q ++ (rq ∷ [])

-- `fifo_dispatch`
pub dispatch : List Request → Option Request × List Request
dispatch [] = (none, [])
dispatch (rq ∷ q) = (some rq, q)

-- What `bio->end_io` is called with: the bio and its status, an int that is
-- negative on an error.
abbrev pub Completion : Type 0
Completion = Bio × Result ℕ

-- `blk_run_queue` and `blk_complete_request`, which call one another; `none` is out of fuel.
pub run_queue : ℕ → (Request → Result ℕ) → List Request → Option (List Completion × List Request)
run_queue zero driver q = none
run_queue (suc fuel) driver q =
    let (rq, q') = dispatch q in
    let rest = run_queue fuel driver q' in
    elim rq [
      | none ↦ some ([], q')
      | some r ↦ elim rest [ none ↦ none | some (done, q'') ↦ some ((r.bio, driver r) ∷ done, q'') ]
    ]

-- `blk_submit_bio`: its result, the completions that happen in it, and the queue.
pub submit_bio :
    Bool
    → (Request → Result ℕ)
    → BlkDev
    → List Request
    → Bio
    → Option (Result (Unit {0}) × List Completion × List Request)
submit_bio memory driver bdev q bio = elim (bio_to_request memory bdev bio) [
  | err e ↦ some (err e, [], q)
  | ok rq ↦ elim (run_queue (suc (length (insert q rq))) driver (insert q rq)) [
    | none ↦ none
    | some (done, q') ↦ some (ok tt, done, q')
  ]
]

-- The status of the last completion.
pub last_status : List Completion → Option (Result ℕ)
last_status [] = none
last_status ((b, s) ∷ []) = some s
last_status ((b, s) ∷ next ∷ done) = last_status (next ∷ done)

-- `block_read` of partitions.c: what it returns, and `none` where it waits for a completion that
-- never comes. It does not look at the result of `blk_submit_bio`. Its bio enters the queue last, so
-- the completion that it waits for is the last one. `memory` is about the bio, `memory'` about the
-- request.
pub block_read :
    Bool → Bool → (Request → Result ℕ) → BlkDev → List Request → ℕ → ℕ → Option (Result ℕ)
block_read memory memory' driver bdev q sector nr_sectors =
    let bio : Bio = record {
      sector = (sector + bdev.start_sector) % sector_mod;
      nr_sectors = nr_sectors;
      op = 0;
    } in
    if not memory then some (err enomem) else elim (submit_bio memory' driver bdev q bio) [
      | none ↦ none
      | some (r, done, q') ↦ last_status done
    ]
