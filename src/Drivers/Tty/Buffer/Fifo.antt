-- ===== src/Drivers/Tty/Buffer/Fifo.antt =====
-- No byte is lost, invented or reordered between `tty_receive_buf` and the line discipline.
use wey_os.Base.{
  ℕ, zero, suc, ◌≤◌, ◌<◌, ◌≡◌, refl, ap, sym, ◌∙◌, inl, inr, Bool, true, false, Option, some, List,
  [], ◌∷◌, ◌++◌, arith, Bool-cases, length, take, drop, length-append, length-drop, length-take,
  append-nil, append_assoc, ==_iff,
}
use wey_os.Drivers.Tty.Buffer.{
  TtyBuffer, chunk_size, fresh, is_full, available, write, fill, unread,
}

-- The bytes of all the chunks, in order.
abbrev pub contents : List TtyBuffer → List ℕ
contents [] = []
contents (c ∷ cs) = unread c ++ contents cs

abbrev pub flatten : List (List ℕ) → List ℕ
flatten [] = []
flatten (x ∷ xs) = x ++ flatten xs

-- Between two calls nothing of a chunk is read, and every chunk but the last is full.
abbrev pub IsBuffer : List TtyBuffer → Type 0
IsBuffer [] = Unit {0}
IsBuffer (c ∷ []) = (c.read_pos ≡ 0) × (length c.bytes ≤ chunk_size)
IsBuffer (c ∷ d ∷ cs) = (c.read_pos ≡ 0) × (length c.bytes ≡ chunk_size) × IsBuffer (d ∷ cs)

contents-snoc : (cs : List TtyBuffer) → contents (cs ++ (fresh ∷ [])) ≡ contents cs
contents-snoc [] = refl
contents-snoc (c ∷ cs) = ap (λ x. unread c ++ x) (contents-snoc cs)

snoc-IsBuffer :
    (cs : List TtyBuffer) → IsBuffer cs → is_full cs ≡ true → IsBuffer (cs ++ (fresh ∷ []))
unfolding is_full
snoc-IsBuffer [] v e = (refl, omega arith)
snoc-IsBuffer (c ∷ []) v e = (v.0, (==_iff (length c.bytes) chunk_size).0 e, (refl, omega arith))
snoc-IsBuffer (c ∷ d ∷ cs) v e = (v.0, v.1, snoc-IsBuffer (d ∷ cs) v.2 e)

-- The tail that is written to.
abbrev HasRoom : List TtyBuffer → Type 0
HasRoom cs = 0 < available cs

fresh-HasRoom : (cs : List TtyBuffer) → HasRoom (cs ++ (fresh ∷ []))
unfolding available
fresh-HasRoom [] = omega arith
fresh-HasRoom (c ∷ []) = omega arith
fresh-HasRoom (c ∷ d ∷ cs) = fresh-HasRoom (d ∷ cs)

open-HasRoom : (cs : List TtyBuffer) → IsBuffer cs → is_full cs ≡ false → HasRoom cs
unfolding available is_full
open-HasRoom [] v e = absurd (ground arith)
open-HasRoom (c ∷ []) v e = ground arith
open-HasRoom (c ∷ d ∷ cs) v e = open-HasRoom (d ∷ cs) v.2 e

drop-append : (n : ℕ) (xs ys : List ℕ) → n ≡ 0 → drop n (xs ++ ys) ≡ drop n xs ++ ys
drop-append zero xs ys e = refl
drop-append (suc n) xs ys e = absurd (omega arith)

contents-write :
    (cs : List TtyBuffer) (bs : List ℕ)
    → IsBuffer cs
    → HasRoom cs
    → contents (write cs bs) ≡ contents cs ++ bs
unfolding available write
contents-write [] bs v r = absurd (omega arith)
contents-write (c ∷ []) bs v r =
    append-nil (drop c.read_pos (c.bytes ++ bs))
    ∙ drop-append c.read_pos c.bytes bs v.0
    ∙ ap (λ x. x ++ bs) (sym (append-nil (unread c)))
contents-write (c ∷ d ∷ cs) bs v r =
    ap (λ x. unread c ++ x) (contents-write (d ∷ cs) bs v.2 r)
    ∙ sym (append_assoc (unread c) (contents (d ∷ cs)) bs)

write-IsBuffer :
    (cs : List TtyBuffer) (bs : List ℕ)
    → IsBuffer cs
    → length bs ≤ available cs
    → IsBuffer (write cs bs)
unfolding available write
write-IsBuffer [] bs v r = tt
write-IsBuffer (c ∷ []) bs v r = (v.0, ground (arith, length-append c.bytes bs))
write-IsBuffer (c ∷ d ∷ []) bs v r = (v.0, v.1, write-IsBuffer (d ∷ []) bs v.2 r)
write-IsBuffer (c ∷ d ∷ e ∷ cs) bs v r = (v.0, v.1, write-IsBuffer (d ∷ e ∷ cs) bs v.2 r)

take-drop : (n : ℕ) (xs : List ℕ) → take n xs ++ drop n xs ≡ xs
take-drop zero xs = refl
take-drop (suc n) [] = refl
take-drop (suc n) (x ∷ xs) = ap (λ t. x ∷ t) (take-drop n xs)

-- What the loop has made of a buffer and the bytes to write.
pub record Filled (memory : ℕ → Bool) (cs : List TtyBuffer) (bytes : List ℕ)
    (r : List TtyBuffer × List ℕ) : Type 0 where
  pub kept : contents r.0 ++ r.1 ≡ contents cs ++ bytes
  pub valid : IsBuffer r.0
  pub whole : ((k : ℕ) → memory k ≡ true) → r.1 ≡ []
  pub shorter : length r.1 ≤ length bytes

abbrev pub FilledTo :
    (ℕ → Bool) → List TtyBuffer → List ℕ → Option (List TtyBuffer × List ℕ) → Type 0
FilledTo memory cs bytes o = (r : List TtyBuffer × List ℕ) × (o ≡ some r) × Filled memory cs bytes r

module _ (memory : ℕ → Bool) where
  -- One turn of the loop into a tail with room.
  one_turn :
      (cs : List TtyBuffer) (bytes : List ℕ) (r : List TtyBuffer × List ℕ)
      → IsBuffer cs
      → HasRoom cs
      → Filled memory (write cs (take (available cs) bytes)) (drop (available cs) bytes) r
      → Filled memory cs bytes r
  one_turn cs bytes r v h f = record {
    kept =
        f.kept
        ∙ ap (λ x. x ++ drop (available cs) bytes)
            (contents-write cs (take (available cs) bytes) v h)
        ∙ append_assoc (contents cs) (take (available cs) bytes) (drop (available cs) bytes)
        ∙ ap (λ x. contents cs ++ x) (take-drop (available cs) bytes);
    valid = f.valid;
    whole = f.whole;
    shorter = let a = length-drop (available cs) bytes in let b = f.shorter in omega arith;
  }

  turn :
      (fuel k : ℕ) (cs : List TtyBuffer) (bytes : List ℕ)
      → IsBuffer cs
      → HasRoom cs
      → 0 < length bytes
      → length bytes < suc fuel
      → ((cs' : List TtyBuffer) (rest : List ℕ)
          → IsBuffer cs'
          → length rest < fuel
          → FilledTo memory cs' rest (fill fuel memory k cs' rest))
      → FilledTo memory cs bytes
          (fill fuel memory k (write cs (take (available cs) bytes)) (drop (available cs) bytes))
  turn fuel k cs bytes v h p l ih =
      let a = length-drop (available cs) bytes in
      let t = length-take (available cs) bytes in
      let (r, e, f) =
        ih (write cs (take (available cs) bytes)) (drop (available cs) bytes)
          (write-IsBuffer cs (take (available cs) bytes) v (omega arith)) (omega arith) in
      (r, e, one_turn cs bytes r v h f)

  grown :
      (cs : List TtyBuffer) (bytes : List ℕ) (r : List TtyBuffer × List ℕ)
      → Filled memory (cs ++ (fresh ∷ [])) bytes r
      → Filled memory cs bytes r
  grown cs bytes r f = record {
    kept = f.kept ∙ ap (λ x. x ++ bytes) (contents-snoc cs);
    valid = f.valid;
    whole = f.whole;
    shorter = f.shorter;
  }

  pub fill_lem :
      (fuel k : ℕ) (cs : List TtyBuffer) (bytes : List ℕ)
      → IsBuffer cs
      → length bytes < fuel
      → FilledTo memory cs bytes (fill fuel memory k cs bytes)
  unfolding fill
  fill_lem zero k cs bytes v l = absurd (omega arith)
  fill_lem (suc fuel) k cs [] v l =
      ((cs, []), refl, record { kept = refl; valid = v; whole = λ m. refl; shorter = omega arith })
  fill_lem (suc fuel) k cs (b ∷ bs) v l = elim (Bool-cases (is_full cs)) [
    | inl e ↦ elim (Bool-cases (memory k)) [
      | inl m ↦
          let (r, q, f) =
            turn fuel (suc k) (cs ++ (fresh ∷ [])) (b ∷ bs) (snoc-IsBuffer cs v e)
              (fresh-HasRoom cs) (omega arith) l (fill_lem fuel (suc k)) in
          (r, rw (e, m) q, grown cs (b ∷ bs) r f)
      | inr m ↦ (
        (cs, b ∷ bs),
        rw (e, m) refl,
        record {
          kept = refl;
          valid = v;
          whole = λ all. absurd (let a = all k in ground arith);
          shorter = omega arith;
        },
      )
    ]
    | inr e ↦
        let (r, q, f) =
          turn fuel k cs (b ∷ bs) v (open-HasRoom cs v e) (omega arith) l (fill_lem fuel k) in
        (r, rw e q, f)
  ]
