-- ===== src/Drivers/Tty/Buffer/Receive.antt =====
-- What a call of `tty_receive_buf` hands to the line discipline.
use wey_os.Base.{
  ℕ, zero, suc, ◌-◌, ◌≡◌, refl, ap, sym, ◌∙◌, inl, inr, ◌⊎◌, Bool, true, false, some, List, [], ◌∷◌,
  ◌++◌, ◌==◌, arith, Bool-cases, length, drop, append-nil, Result, ok, err, enomem, ==_iff,
}
use wey_os.Drivers.Tty.Buffer.{
  TtyBuffer, fresh, unread, is_nil, dispatch, drain, flush_to_ldisc, finish, tty_receive_buf,
}
use wey_os.Drivers.Tty.Buffer.Fifo.{contents, flatten, IsBuffer, Filled, fill_lem}

is_nil_elim : (xs : List ℕ) → is_nil xs ≡ true → xs ≡ []
is_nil_elim [] e = refl
is_nil_elim (x ∷ xs) e = absurd (ground arith)

flatten-dispatch :
    (c : TtyBuffer) (calls : List (List ℕ)) → flatten (dispatch c calls) ≡ unread c ++ flatten calls
flatten-dispatch c calls = elim (Bool-cases (is_nil (unread c))) [
  | inl e ↦ rw e (sym (ap (λ x. x ++ flatten calls) (is_nil_elim (unread c) e)))
  | inr e ↦ rw e refl
]

flatten-drain : (cs : List TtyBuffer) → flatten ((drain cs).0) ≡ contents cs
unfolding drain
flatten-drain [] = refl
flatten-drain (c ∷ []) = flatten-dispatch c []
flatten-drain (c ∷ d ∷ cs) =
    flatten-dispatch c ((drain (d ∷ cs)).0) ∙ ap (λ x. unread c ++ x) (flatten-drain (d ∷ cs))

drain_left : (c : TtyBuffer) (cs : List TtyBuffer) → (drain (c ∷ cs)).1 ≡ fresh ∷ []
unfolding drain
drain_left c [] = refl
drain_left c (d ∷ cs) = drain_left d cs

drop-nil : (n : ℕ) (xs : List ℕ) → n ≡ 0 → drop n xs ≡ [] → length xs ≡ 0
drop-nil zero xs e d = ap (λ x. length x) d
drop-nil (suc n) xs e d = absurd (omega arith)

-- A buffer whose head has nothing to read is empty.
contents-head :
    (c : TtyBuffer) (cs : List TtyBuffer)
    → IsBuffer (c ∷ cs)
    → unread c ≡ []
    → contents (c ∷ cs) ≡ []
contents-head c [] v e = ap (λ x. x ++ []) e
contents-head c (d ∷ cs) v e =
    absurd (let l = drop-nil c.read_pos c.bytes v.0 e in let w = v.1 in omega arith)

-- What a flush comes to.
record Flushed (ldisc : Bool) (cs : List TtyBuffer) (f : List (List ℕ) × List TtyBuffer)
    : Type 0 where
  kept : flatten f.0 ++ contents f.1 ≡ contents cs
  valid : IsBuffer f.1
  drained : ldisc ≡ true → contents f.1 ≡ []

flush_to_ldisc_lem :
    (ldisc : Bool) (cs : List TtyBuffer) → IsBuffer cs → Flushed ldisc cs (flush_to_ldisc ldisc cs)
unfolding flush_to_ldisc
flush_to_ldisc_lem ldisc [] v = record { kept = refl; valid = tt; drained = λ e. refl }
flush_to_ldisc_lem false (c ∷ cs) v = record {
  kept = refl;
  valid = v;
  drained = λ e. absurd (ground arith);
}
flush_to_ldisc_lem true (c ∷ cs) v = elim (Bool-cases (is_nil (unread c))) [
  | inl e ↦ rw e (record {
    kept = refl;
    valid = v;
    drained = λ t. contents-head c cs v (is_nil_elim (unread c) e);
  })
  | inr e ↦
      rw (e, drain_left c cs)
        (record {
          kept = append-nil (flatten ((drain (c ∷ cs)).0)) ∙ flatten-drain (c ∷ cs);
          valid = (refl, omega arith);
          drained = λ t. refl;
        })
]

-- What a call of `tty_receive_buf` has done with the bytes, `rest` of them left unwritten.
pub record Received (ldisc : Bool) (memory : ℕ → Bool) (cs : List TtyBuffer) (bytes rest : List ℕ)
    (r : Result ℕ × List (List ℕ) × List TtyBuffer) : Type 0 where
  pub kept : flatten r.1 ++ (contents r.2 ++ rest) ≡ contents cs ++ bytes
  pub valid : IsBuffer r.2
  pub told :
      (r.0 ≡ ok (length bytes - length rest)) ⊎ ((r.0 ≡ err enomem) × (length rest ≡ length bytes))
  pub whole : ((k : ℕ) → memory k ≡ true) → rest ≡ []
  pub drained : ldisc ≡ true → rest ≡ [] → contents r.2 ≡ []

finish_lem :
    (ldisc : Bool) (memory : ℕ → Bool) (cs : List TtyBuffer) (bytes : List ℕ)
    (r : List TtyBuffer × List ℕ)
    → Filled memory cs bytes r
    → Received ldisc memory cs bytes r.1 (finish ldisc (length bytes) r)
unfolding finish
finish_lem ldisc memory cs bytes (chunks, []) f =
    let g = flush_to_ldisc_lem ldisc chunks f.valid in
    record {
      kept =
          ap (λ x. flatten ((flush_to_ldisc ldisc chunks).0) ++ x)
            (append-nil (contents ((flush_to_ldisc ldisc chunks).1)))
          ∙ g.kept
          ∙ sym (append-nil (contents chunks))
          ∙ f.kept;
      valid = g.valid;
      told = inl (ap (λ n. ok n) (omega arith));
      whole = λ m. refl;
      drained = λ t e. g.drained t;
    }
finish_lem ldisc memory cs bytes (chunks, b ∷ bs) f =
    elim (Bool-cases (length (b ∷ bs) == length bytes)) [
      | inl e ↦ rw e (record {
        kept = f.kept;
        valid = f.valid;
        told = inr (refl, (==_iff (length (b ∷ bs)) (length bytes)).0 e);
        whole = f.whole;
        drained = λ t n. absurd (let l = ap (λ x. length x) n in omega arith);
      })
      | inr e ↦ rw e (record {
        kept = f.kept;
        valid = f.valid;
        told = inl refl;
        whole = f.whole;
        drained = λ t n. absurd (let l = ap (λ x. length x) n in omega arith);
      })
    ]

-- `tty_receive_buf` of at least one byte always comes to an end. The bytes that the line discipline
-- was handed, those that stay in the chunks and those that were not written make up, in this order,
-- the bytes that stood in the chunks and the ones received. It returns how many were written, or
-- ENOMEM when none was. With memory all are written; then, with a line discipline, nothing stays.
pub tty_receive_buf_lem :
    (ldisc : Bool) (memory : ℕ → Bool) (cs : List TtyBuffer) (b : ℕ) (bs : List ℕ)
    → IsBuffer cs
    → (rest : List ℕ) × (r : Result ℕ × List (List ℕ) × List TtyBuffer) × (tty_receive_buf ldisc
          memory cs
          (b ∷ bs)
        ≡ some r)
      × Received ldisc memory cs (b ∷ bs) rest r
unfolding tty_receive_buf
tty_receive_buf_lem ldisc memory cs b bs v =
    let (r, e, f) = fill_lem memory (suc (length (b ∷ bs))) 0 cs (b ∷ bs) v (omega arith) in
    (r.1, finish ldisc (length (b ∷ bs)) r, rw e refl, finish_lem ldisc memory cs (b ∷ bs) r f)
