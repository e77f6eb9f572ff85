-- ===== src/Block/Request/Queue.antt =====
-- The queue drains in order, and only requests inside the device enter it.
use wey_os.Base.{
  Result-cases, ℕ, zero, suc, ◌+◌, ◌%◌, ◌<◌, ◌≡◌, refl, inl, inr, Bool, true, Option, none, some,
  List, [], ◌∷◌, ◌++◌, arith, length, Result, ok, err,
}
use wey_os.Block.Request.{
  BlkDev, Bio, Request, Completion, sector_mod, bio_to_request, insert, dispatch, run_queue,
  submit_bio, last_status, block_read,
}

-- Every request completed with what the driver answers, first in first out.
abbrev pub completions : (Request → Result ℕ) → List Request → List Completion
completions driver [] = []
completions driver (r ∷ rs) = (r.bio, driver r) ∷ completions driver rs

run_queue-completions :
    (fuel : ℕ) (driver : Request → Result ℕ) (q : List Request)
    → length q < fuel
    → run_queue fuel driver q ≡ some (completions driver q, [])
unfolding run_queue dispatch
run_queue-completions zero driver q h = absurd (omega arith)
run_queue-completions (suc fuel) driver [] h = refl
run_queue-completions (suc fuel) driver (r ∷ q) h =
    rw (run_queue-completions fuel driver q (omega arith)) refl

-- What `blk_submit_bio` comes to, for what `bio_to_request` made of the bio.
abbrev pub outcome :
    (Request → Result ℕ)
    → List Request
    → Result Request
    → Result (Unit {0}) × List Completion × List Request
outcome driver q (err e) = (err e, [], q)
outcome driver q (ok rq) = (ok tt, completions driver (q ++ (rq ∷ [])), [])

-- `blk_submit_bio` always comes to an end. When it accepts the bio, the queue is empty afterwards
-- and every request that stood in it, the new one last, has been completed once with the driver's
-- status, in order; when it refuses, nothing is completed and the queue stays as it was.
pub submit_bio_lem :
    (memory : Bool) (driver : Request → Result ℕ) (bdev : BlkDev) (q : List Request) (bio : Bio)
    → submit_bio memory driver bdev q bio ≡ some (outcome driver q (bio_to_request memory bdev bio))
unfolding submit_bio insert
submit_bio_lem memory driver bdev q bio = elim (Result-cases (bio_to_request memory bdev bio)) [
  | inl (e, r) ↦ rw (submit_bio, r) refl
  | inr (rq, r) ↦
      rw (submit_bio, r)
        (rw
          (run_queue-completions (suc (length (q ++ (rq ∷ [])))) driver (q ++ (rq ∷ []))
            (omega arith))
          refl)
]

last_status-completions :
    (driver : Request → Result ℕ) (q : List Request) (r : Request)
    → last_status (completions driver (q ++ (r ∷ []))) ≡ some (driver r)
unfolding last_status
last_status-completions driver [] r = refl
last_status-completions driver (x ∷ []) r = refl
last_status-completions driver (x ∷ y ∷ q) r = last_status-completions driver (y ∷ q) r

-- The bio of `block_read`.
abbrev pub read_bio : BlkDev → ℕ → ℕ → Bio
read_bio bdev sector nr_sectors = record {
  sector = (sector + bdev.start_sector) % sector_mod;
  nr_sectors = nr_sectors;
  op = 0;
}

-- What `block_read` returns, for what `bio_to_request` made of its bio.
abbrev pub read_outcome : (Request → Result ℕ) → Result Request → Option (Result ℕ)
read_outcome driver (err e) = none
read_outcome driver (ok rq) = some (driver rq)

-- With memory for its bio, `block_read` returns the driver's status when the request is accepted,
-- and never returns when it is refused: out of the device, no disk, or no memory for the request.
pub block_read_lem :
    (memory : Bool) (driver : Request → Result ℕ) (bdev : BlkDev) (q : List Request) (sector n : ℕ)
    → block_read true memory driver bdev q sector n
      ≡ read_outcome driver (bio_to_request memory bdev (read_bio bdev sector n))
unfolding block_read last_status
block_read_lem memory driver bdev q sector n =
    rw (submit_bio_lem memory driver bdev q (read_bio bdev sector n))
      (elim (Result-cases (bio_to_request memory bdev (read_bio bdev sector n))) [
        | inl (e, r) ↦ rw r refl
        | inr (rq, r) ↦ rw r (last_status-completions driver q rq)
      ])
