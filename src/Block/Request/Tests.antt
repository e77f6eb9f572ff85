-- ===== src/Block/Request/Tests.antt =====
-- A device of 100 sectors from sector 10 on, and a driver that fails behind sector 50.
use wey_os.Base.{
  ℕ, ◌-◌, ◌^◌, ◌≡◌, refl, true, none, some, [], ◌∷◌, ltb, if◌then◌else◌, Result, ok, err, erange,
  enodev,
}
use wey_os.Block.Request.{
  BlkDev, Bio, Request, bio_to_request, insert, dispatch, run_queue, submit_bio, last_status,
  block_read,
}
use wey_os.Block.Request.Queue.{outcome, read_bio, read_outcome, submit_bio_lem, block_read_lem}

abbrev device : BlkDev
device = record { has_disk = true; start_sector = 10; nr_sectors = 100 }

abbrev driver : Request → Result ℕ
driver r = if ltb 50 r.sector then err enodev else ok 0

abbrev bio_at : ℕ → Bio
bio_at s = record { sector = s; nr_sectors = 2; op = 0 }

abbrev request_at : ℕ → Request
request_at s = record { sector = s; nr_sectors = 2; op = 0; bio = bio_at s }

submitted :
    submit_bio true driver device (request_at 20 ∷ []) (bio_at 60)
    ≡ some (ok tt, (bio_at 20, ok 0) ∷ (bio_at 60, err enodev) ∷ [], [])
unfolding submit_bio bio_to_request insert run_queue dispatch
submitted = refl

refused : submit_bio true driver device [] (bio_at 109) ≡ some (err erange, [], [])
unfolding submit_bio bio_to_request
refused = refl

-- The sector behind the last one of this bio wraps to a small number.
wrapped :
    bio_to_request true device (record { sector = 2 ^ 64 - 1; nr_sectors = 12; op = 0 })
    ≡ ok (record {
      sector = 2 ^ 64 - 1;
      nr_sectors = 12;
      op = 0;
      bio = record { sector = 2 ^ 64 - 1; nr_sectors = 12; op = 0 };
    })
unfolding bio_to_request
wrapped = refl

waits : block_read true true driver device [] 99 2 ≡ none
unfolding block_read submit_bio bio_to_request last_status
waits = refl

submit_bio_lem_example :
    submit_bio true driver device (request_at 20 ∷ []) (bio_at 60)
    ≡ some (outcome driver (request_at 20 ∷ []) (bio_to_request true device (bio_at 60)))
submit_bio_lem_example = submit_bio_lem true driver device (request_at 20 ∷ []) (bio_at 60)

block_read_lem_example :
    block_read true true driver device [] 99 2
    ≡ read_outcome driver (bio_to_request true device (read_bio device 99 2))
block_read_lem_example = block_read_lem true driver device [] 99 2
