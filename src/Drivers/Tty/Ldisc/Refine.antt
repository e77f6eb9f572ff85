-- ===== src/Drivers/Tty/Ldisc/Refine.antt =====
-- The line discipline against a plain queue of at most 512 bytes.
use wey_os.Base.{
  ℕ, zero, suc, ◌+◌, ◌-◌, ◌%◌, ◌≤◌, ◌<◌, ◌≡◌, refl, ap, sym, ◌∙◌, Bool, true, false, ◌&&◌, ◌||◌,
  none, some, List, [], ◌∷◌, ◌++◌, ltb, leb, ◌==◌, if◌then◌else◌, arith, Bool-cases, inl, inr,
  get_or, length, length-append, All, append_assoc, ◌≢◌, ok,
}
use wey_os.Drivers.Tty.Ldisc.{
  Data, Tty, size, is_newline, append, receive, receive_all, read_loop, read,
}
use wey_os.Drivers.Tty.Ldisc.Ring.{
  IsRing, window, contents, window-front, length-window, drop_last, append-IsRing, contents-append,
  erase-IsRing, contents-erase,
}

-- What a byte does to the queue of bytes not yet read.
abbrev pub push : List ℕ → ℕ → List ℕ
push q ch = if ltb (length q) size then q ++ (ch ∷ []) else q

abbrev pub feed : List ℕ → ℕ → List ℕ
feed q ch =
    if ch == 8
    then drop_last q
    else if is_newline ch
    then push q ch
    else if leb 1 ch && leb ch 26
    then []
    else push q ch

abbrev pub feed_all : List ℕ → List ℕ → List ℕ
feed_all q [] = q
feed_all q (ch ∷ chs) = feed_all (feed q ch) chs

-- What a read of at most `len` bytes takes: up to the first newline, and what it leaves.
abbrev pub take_line : ℕ → List ℕ → List ℕ × List ℕ
take_line zero q = ([], q)
take_line (suc len) [] = ([], [])
take_line (suc len) (ch ∷ q) =
    if is_newline ch then (ch ∷ [], q) else (ch ∷ (take_line len q).0, (take_line len q).1)

push_lem :
    (w : Bool) (d : Data) (ch : ℕ) → IsRing d → contents (append w d ch).0 ≡ push (contents d) ch
push_lem w d ch v =
    contents-append w d ch v
    ∙ ap (λ n. if ltb n size then contents d ++ (ch ∷ []) else contents d)
        (sym (length-window d.buffer d.tail d.count))

receive-IsRing : (w : Bool) (d : Data) (ch : ℕ) → IsRing d → IsRing (receive w d ch).0
unfolding receive
receive-IsRing w d ch v = elim (Bool-cases (ch == 8)) [
  | inl a ↦ rw a (erase-IsRing w d v)
  | inr a ↦ elim (Bool-cases (is_newline ch)) [
    | inl b ↦ rw a (rw b (append-IsRing w d ch v))
    | inr b ↦ elim (Bool-cases (leb 1 ch && leb ch 26)) [
      | inl c ↦ rw a (
          rw b (
            rw c (record {
              storage = v.storage;
              tail_lt = omega arith;
              count_le = omega arith;
              head_at = refl;
            })))
      | inr c ↦ rw a (rw b (rw c (append-IsRing w d ch v)))
    ]
  ]
]

receive-feed :
    (w : Bool) (d : Data) (ch : ℕ) → IsRing d → contents (receive w d ch).0 ≡ feed (contents d) ch
unfolding receive
receive-feed w d ch v = elim (Bool-cases (ch == 8)) [
  | inl a ↦ rw a (contents-erase w d v)
  | inr a ↦ elim (Bool-cases (is_newline ch)) [
    | inl b ↦ rw a (rw b (push_lem w d ch v))
    | inr b ↦ elim (Bool-cases (leb 1 ch && leb ch 26)) [
      | inl c ↦ rw a (rw b (rw c refl))
      | inr c ↦ rw a (rw b (rw c (push_lem w d ch v)))
    ]
  ]
]

abbrev pub any_newline : List ℕ → Bool
any_newline [] = false
any_newline (ch ∷ chs) = is_newline ch || any_newline chs

-- Receiving bytes into a ring in order leaves it in order, acts on the bytes that it holds as the
-- queue of at most 512 bytes does (a backspace drops the newest, another control character below
-- 27 empties it, a full queue drops the byte), and wakes the readers exactly if a newline came.
pub receive_all-feed_all :
    (w : Bool) (d : Data) (chs : List ℕ)
    → IsRing d
    → IsRing (receive_all w d chs).0
      × (contents (receive_all w d chs).0 ≡ feed_all (contents d) chs)
      × ((receive_all w d chs).2 ≡ any_newline chs)
unfolding receive_all
receive_all-feed_all w d [] v = (v, refl, refl)
receive_all-feed_all w d (ch ∷ chs) v =
    let ih = receive_all-feed_all w (receive w d ch).0 chs (receive-IsRing w d ch v) in
    (
      ih.0,
      ih.1 ∙ ap (λ q. feed_all q chs) (receive-feed w d ch v),
      ap (λ b. is_newline ch || b) ih.2,
    )

abbrev taken : Data → Data
taken d = record d { tail = (d.tail + 1) % size; count = d.count - 1 }

window_split :
    (buf : List ℕ) (t c : ℕ)
    → t < size
    → (c == 0) ≡ false
    → window buf t c ≡ get_or buf t 0 ∷ window buf ((t + 1) % size) (c - 1)
window_split buf t zero h e = absurd (ground arith)
window_split buf t (suc n) h e =
    let m : suc n - 1 ≡ n = omega arith in rw m (window-front buf t n h)

window_none : (buf : List ℕ) (t c : ℕ) → (c == 0) ≡ true → window buf t c ≡ []
window_none buf t zero e = refl
window_none buf t (suc n) e = absurd (ground arith)

taken-IsRing : (d : Data) → IsRing d → (d.count == 0) ≡ false → IsRing (taken d)
taken-IsRing d v e =
    let p : 0 < d.count = ground arith in
    record {
      storage = v.storage;
      tail_lt = omega arith;
      count_le = omega (arith, v.count_le);
      head_at = omega (arith, v.head_at, v.tail_lt, v.count_le);
    }

read_loop-take_line :
    (len : ℕ) (d : Data)
    → IsRing d
    → IsRing (read_loop len d).1
      × ((read_loop len d).0 ≡ (take_line len (contents d)).0)
      × (contents (read_loop len d).1 ≡ (take_line len (contents d)).1)
unfolding read_loop
read_loop-take_line zero d v = (v, refl, refl)
read_loop-take_line (suc len) d v = elim (Bool-cases (d.count == 0)) [
  | inl z ↦ rw z (rw (window_none d.buffer d.tail d.count z) (v, refl, refl))
  | inr z ↦
      let r = taken-IsRing d v z in
      let ih = read_loop-take_line len (taken d) r in
      rw z (
        rw (window_split d.buffer d.tail d.count v.tail_lt z)
          (elim (Bool-cases (is_newline (get_or d.buffer d.tail 0))) [
            | inl n ↦ rw n (r, refl, refl)
            | inr n ↦ rw n (ih.0, ap (λ l. get_or d.buffer d.tail 0 ∷ l) ih.1, ih.2)
          ]))
]

-- A read with room for at least one byte sleeps exactly when the ring is empty. Otherwise it takes
-- the bytes up to and with the first newline, at most as many as asked for and at least one, and
-- leaves the others in the ring, in order.
pub read-take_line :
    (t : Tty) (d : Data) (len : ℕ)
    → t.ldisc ≡ some d
    → IsRing d
    → (contents d ≡ [] → read t (suc len) ≡ none)
      × (contents d ≢ []
          → (e : Data) × (read t (suc len)
              ≡ some (ok (take_line (suc len) (contents d)).0, record t { ldisc = some e }))
            × IsRing e
            × (contents e ≡ (take_line (suc len) (contents d)).1))
unfolding read
read-take_line t d len p v =
    let loop = read_loop-take_line (suc len) d v in
    (
      λ h. elim (Bool-cases (d.count == 0)) [
        | inl z ↦ rw (p, read) (rw z)
        | inr z ↦ absurd (cc (window_split d.buffer d.tail d.count v.tail_lt z))
      ],
      λ h. elim (Bool-cases (d.count == 0)) [
        | inl z ↦ absurd (h (window_none d.buffer d.tail d.count z))
        | inr z ↦ (
          (read_loop (suc len) d).1,
          rw (p, read)
              (rw z (
                ap (λ b. some (ok b, record t { ldisc = some (read_loop (suc len) d).1 })) loop.1)),
          loop.0,
          loop.2,
        )
      ],
    )

-- A byte that is neither a backspace nor another control character below 27.
abbrev pub IsPlain : ℕ → Type 0
IsPlain ch = 27 ≤ ch

feed_all-plain :
    (q line : List ℕ)
    → All IsPlain line
    → length q + length line < size
    → feed_all q (line ++ (10 ∷ [])) ≡ q ++ (line ++ (10 ∷ []))
feed_all-plain q [] a h = let e : ltb (length q) size ≡ true = ground arith in rw e refl
feed_all-plain q (ch ∷ line) a h =
    let e : feed q ch ≡ q ++ (ch ∷ []) = ground arith in
    ap (λ r. feed_all r (line ++ (10 ∷ []))) e
    ∙ (feed_all-plain (q ++ (ch ∷ [])) line a.1 (omega (arith, length-append q (ch ∷ [])))
        ∙ append_assoc q (ch ∷ []) (line ++ (10 ∷ [])))

take_line-plain :
    (len : ℕ) (line : List ℕ)
    → All IsPlain line
    → length line < len
    → take_line len (line ++ (10 ∷ [])) ≡ (line ++ (10 ∷ []), [])
take_line-plain zero line a h = absurd (omega arith)
take_line-plain (suc len) [] a h = refl
take_line-plain (suc len) (ch ∷ line) a h =
    let e : is_newline ch ≡ false = ground arith in
    rw e (rw (take_line-plain len line a.1 (omega arith)) refl)

-- A typed line comes back whole: after receiving up to 511 plain bytes and a newline into an empty
-- ring, a read with room for them returns exactly these bytes with the newline, and leaves the
-- ring empty.
pub read-receive_all :
    (t : Tty) (d : Data) (line : List ℕ) (len : ℕ)
    → IsRing d
    → contents d ≡ []
    → All IsPlain line
    → length line < size
    → length line ≤ len
    → (e : Data) × (read
          (record t { ldisc = some (receive_all t.has_write d (line ++ (10 ∷ []))).0 })
          (suc len)
        ≡ some (ok (line ++ (10 ∷ [])), record t { ldisc = some e }))
      × (contents e ≡ [])
read-receive_all t d line len v z a h k =
    let r = receive_all-feed_all t.has_write d (line ++ (10 ∷ [])) v in
    let c : contents (receive_all t.has_write d (line ++ (10 ∷ []))).0 ≡ line ++ (10 ∷ []) =
      r.1 ∙ ap (λ q. feed_all q (line ++ (10 ∷ []))) z ∙ feed_all-plain [] line a (omega arith) in
    let t' = record t { ldisc = some (receive_all t.has_write d (line ++ (10 ∷ []))).0 } in
    let out =
      (read-take_line t' (receive_all t.has_write d (line ++ (10 ∷ []))).0 len refl r.0).1
        (λ n. not_nil line (sym c ∙ n)) in
    let l = take_line-plain (suc len) line a (omega arith) in
    (
      out.0,
      out.1
          ∙ ap (λ q. some (ok (take_line (suc len) q).0, record t { ldisc = some out.0 })) c
          ∙ ap (λ b. some (ok b.0, record t { ldisc = some out.0 })) l,
      out.3 ∙ ap (λ q. (take_line (suc len) q).1) c ∙ ap (λ b. b.1) l,
    )
  where
    not_nil : (xs : List ℕ) → xs ++ (10 ∷ []) ≡ [] → ⊥
    not_nil [] e = cc e
    not_nil (x ∷ xs) e = cc e
