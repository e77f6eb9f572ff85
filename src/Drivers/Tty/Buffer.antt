-- ===== src/Drivers/Tty/Buffer.antt =====
-- The receive buffer of a terminal, src/drivers/tty/tty_buffer.c: a list of chunks from `head` to
-- `tail`. Bytes enter at the tail chunk and leave, towards the line discipline, at the head chunk.
-- A chunk's `bytes` are its `data` up to `write_pos`, and its `size` always TTY_BUFFER_CHUNK_SIZE. The
-- allocation of a chunk answers through an argument, and the cache of freed chunks is part of that
-- allocation. The lock is taken to exclude every other call.
pub mod Fifo
pub mod Receive
mod Tests
use wey_os.Base.{
  ℕ, zero, suc, ◌+◌, ◌-◌, Bool, true, false, not, ◌&&◌, Option, none, some, List, [], ◌∷◌, ◌++◌,
  ◌==◌, if◌then◌else◌, length, take, drop, Result, ok, err, einval, enomem,
}

-- `struct tty_buffer`
pub record TtyBuffer : Type 0 where
  pub read_pos : ℕ
  pub bytes : List ℕ

-- `TTY_BUFFER_CHUNK_SIZE`
abbrev pub chunk_size : ℕ
chunk_size = 1024

-- `tty_buffer_alloc_chunk`, when it succeeds.
abbrev pub fresh : TtyBuffer
fresh = record { read_pos = 0; bytes = [] }

-- `!buf || buf->write_pos == buf->size`, for the tail.
pub is_full : List TtyBuffer → Bool
is_full [] = true
is_full (c ∷ []) = length c.bytes == chunk_size
is_full (c ∷ d ∷ cs) = is_full (d ∷ cs)

-- `buf->size - buf->write_pos`, for the tail.
pub available : List TtyBuffer → ℕ
available [] = 0
available (c ∷ []) = chunk_size - length c.bytes
available (c ∷ d ∷ cs) = available (d ∷ cs)

-- The bytes are copied to the end of the tail.
pub write : List TtyBuffer → List ℕ → List TtyBuffer
write [] bytes = []
write (c ∷ []) bytes = record { read_pos = c.read_pos; bytes = c.bytes ++ bytes } ∷ []
write (c ∷ d ∷ cs) bytes = c ∷ write (d ∷ cs) bytes

-- The loop of `tty_receive_buf`: the chunks, and the bytes that were not written because the `k`-th
-- allocation failed; `none` is out of fuel. The turn that allocates a chunk and the next one, which
-- links it in, are one round.
pub fill : ℕ → (ℕ → Bool) → ℕ → List TtyBuffer → List ℕ → Option (List TtyBuffer × List ℕ)
fill zero memory k chunks bytes = none
fill (suc fuel) memory k chunks [] = some (chunks, [])
fill (suc fuel) memory k chunks (b ∷ bs) =
    let full = is_full chunks in
    let ready = if full then chunks ++ (fresh ∷ []) else chunks in
    let n = available ready in
    let rest =
      fill fuel memory (if full then suc k else k) (write ready (take n (b ∷ bs)))
        (drop n (b ∷ bs)) in
    if full && not (memory k) then some (chunks, b ∷ bs) else rest

-- What a chunk has for its reader.
abbrev pub unread : TtyBuffer → List ℕ
unread c = drop c.read_pos c.bytes

abbrev pub is_nil : List ℕ → Bool
is_nil [] = true
is_nil (b ∷ bs) = false

-- The call of `receive_buf` for a chunk, if it has anything.
abbrev pub dispatch : TtyBuffer → List (List ℕ) → List (List ℕ)
dispatch c calls = if is_nil (unread c) then calls else unread c ∷ calls

-- The loop of `flush_to_ldisc`: the calls of `receive_buf`, and the chunks that stay.
pub drain : List TtyBuffer → List (List ℕ) × List TtyBuffer
drain [] = ([], [])
drain (c ∷ []) = (dispatch c [], fresh ∷ [])
drain (c ∷ d ∷ cs) = let (calls, left) = drain (d ∷ cs) in (dispatch c calls, left)

-- `flush_to_ldisc`, for a buffer that has a chunk; `ldisc` is whether there is a line discipline
-- that receives.
pub flush_to_ldisc : Bool → List TtyBuffer → List (List ℕ) × List TtyBuffer
flush_to_ldisc ldisc [] = ([], [])
flush_to_ldisc ldisc (c ∷ cs) =
    if not ldisc then ([], c ∷ cs) else if is_nil (unread c) then ([], c ∷ cs) else drain (c ∷ cs)

-- The end of `tty_receive_buf`: its result, the calls of `receive_buf`, and the buffer.
pub finish : Bool → ℕ → List TtyBuffer × List ℕ → Result ℕ × List (List ℕ) × List TtyBuffer
finish ldisc len (chunks, []) =
    let (calls, left) = flush_to_ldisc ldisc chunks in (ok len, calls, left)
finish ldisc len (chunks, b ∷ bs) =
    if length (b ∷ bs) == len
    then (err enomem, [], chunks)
    else (ok (len - length (b ∷ bs)), [], chunks)

-- `tty_receive_buf`, for a terminal and a buffer that are not NULL.
pub tty_receive_buf :
    Bool → (ℕ → Bool) → List TtyBuffer → List ℕ → Option (Result ℕ × List (List ℕ) × List TtyBuffer)
tty_receive_buf ldisc memory chunks bytes =
    if is_nil bytes
    then some (err einval, [], chunks)
    else elim (fill (suc (length bytes)) memory 0 chunks bytes) [
      | none ↦ none
      | some r ↦ some (finish ldisc (length bytes) r)
    ]
