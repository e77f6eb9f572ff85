-- ===== src/Drivers/Tty/Ldisc.antt =====
-- The line discipline, src/drivers/tty/tty_ldisc.c.
-- The ring of `struct tty_ldisc_data` is a record; what goes to `tty->ops->write` is the list of
-- the writes, in order. A read that finds nothing sleeps, which is `none`. Bytes are numbers.
pub mod Ring
pub mod Refine
mod Tests
use wey_os.Base.{
  ℕ, zero, suc, ◌+◌, ◌-◌, ◌%◌, Bool, true, false, ◌&&◌, ◌||◌, Option, none, some, List, [], ◌∷◌,
  ◌++◌, ltb, leb, ◌==◌, if◌then◌else◌, set, get_or, replicate, Result, ok, err, enodev, enomem,
}

-- `TTY_BUFFER_LDISC_SIZE`
abbrev pub size : ℕ
size = 512

-- `struct tty_ldisc_data`
pub record Data : Type 0 where
  pub head : ℕ
  pub tail : ℕ
  pub count : ℕ
  pub buffer : List ℕ

-- What the discipline uses of `struct tty_struct`: its own data, and whether the driver writes.
pub record Tty : Type 0 where
  pub ldisc : Option Data
  pub has_write : Bool

abbrev pub fresh : Data
fresh = record { head = 0; tail = 0; count = 0; buffer = replicate 512 0 }

-- `tty_ldisc_open`: the two allocations succeed or not.
pub open_tty : Bool → Bool → Tty → Result (Unit {0}) × Tty
open_tty memory memory' t = elim t.ldisc [
  | some _ ↦ (ok tt, t)
  | none ↦
      if memory
      then (if memory' then (ok tt, record t { ldisc = some fresh }) else (err enomem, t))
      else (err enomem, t)
]

-- `tty_ldisc_close`
pub close : Tty → Tty
close t = record t { ldisc = none }

-- One write to the driver, if it has `write`.
abbrev pub echo : Bool → List ℕ → List (List ℕ)
echo has_write bytes = if has_write then bytes ∷ [] else []

abbrev pub is_newline : ℕ → Bool
is_newline ch = (ch == 10) || (ch == 13)

-- The code behind the label `append`.
pub append : Bool → Data → ℕ → Data × List (List ℕ)
append has_write d ch =
    if ltb d.count size
    then (
      record d { buffer = set d.buffer d.head ch; head = (d.head + 1) % size; count = d.count + 1 },
      echo has_write (ch ∷ []),
    )
    else (d, [])

-- A backspace.
pub erase : Bool → Data → Data × List (List ℕ)
erase has_write d =
    if ltb 0 d.count
    then (
      record d {
        head = (d.head + size - 1) % size;
        count = d.count - 1;
        buffer = set d.buffer ((d.head + size - 1) % size) 0;
      },
      echo has_write (8 ∷ 32 ∷ 8 ∷ []),
    )
    else (d, [])

-- One turn of the loop of `tty_ldisc_receive_buf`.
pub receive : Bool → Data → ℕ → Data × List (List ℕ)
unfolding append erase
receive has_write d ch =
    if ch == 8
    then erase has_write d
    else if is_newline ch
    then append has_write d ch
    else if leb 1 ch && leb ch 26
    then (record d { head = 0; tail = 0; count = 0 }, echo has_write (94 ∷ (64 + ch) ∷ 10 ∷ []))
    else append has_write d ch

-- The whole loop: the new data, the writes in order, and whether readers are woken.
pub receive_all : Bool → Data → List ℕ → Data × List (List ℕ) × Bool
receive_all has_write d [] = (d, [], false)
receive_all has_write d (ch ∷ chs) =
    let (d', out) = receive has_write d ch in
    let (e, outs, wake) = receive_all has_write d' chs in (e, out ++ outs, is_newline ch || wake)

-- `tty_ldisc_receive_buf`; the data may be NULL.
pub receive_buf : Tty → Option (List ℕ) → Result (Unit {0}) × Tty × List (List ℕ) × Bool
receive_buf t none = (ok tt, t, [], false)
receive_buf t (some []) = (ok tt, t, [], false)
receive_buf t (some (ch ∷ chs)) = elim t.ldisc [
  | none ↦ (err enodev, t, [], false)
  | some d ↦
      let (e, outs, wake) = receive_all t.has_write d (ch ∷ chs) in
      (ok tt, record t { ldisc = some e }, outs, wake)
]

-- The inner loop of `tty_ldisc_read`, for at most `len` bytes.
pub read_loop : ℕ → Data → List ℕ × Data
read_loop zero d = ([], d)
read_loop (suc len) d =
    let ch = get_or d.buffer d.tail 0 in
    let d' = record d { tail = (d.tail + 1) % size; count = d.count - 1 } in
    let rest = read_loop len d' in
    if d.count == 0 then ([], d) else if is_newline ch then (ch ∷ [], d') else (ch ∷ rest.0, rest.1)

-- `tty_ldisc_read`, for a buffer that is not NULL. The inner loop reads at least one byte, so the
-- outer one ends after it; `none` is `sleep_current` on an empty ring.
pub read : Tty → ℕ → Option (Result (List ℕ) × Tty)
read t zero = some (ok [], t)
read t (suc len) = elim t.ldisc [
  | none ↦ some (err enodev, t)
  | some d ↦
      let (bytes, e) = read_loop (suc len) d in
      if d.count == 0 then none else some (ok bytes, record t { ldisc = some e })
]
