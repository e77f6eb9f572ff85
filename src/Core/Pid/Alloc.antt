-- ===== src/Core/Pid/Alloc.antt =====
-- What `pid_alloc` hands out, and when it fails.
use wey_os.Base.{
  ℕ, zero, suc, ◌+◌, ◌-◌, ◌%◌, ◌≤◌, ◌<◌, ◌≡◌, ◌≢◌, refl, ap, ◌∙◌, inl, inr, none, some, List, ◌==◌,
  arith, Bool-cases, Option-cases, ==_iff, get_or, set, length, length-set, get_or-set_self,
  get_or-set_ne, true, false,
}
use wey_os.Core.Pid.{Pids, proc_max, search, alloc, free}

-- The array has its size and the cursor lies in it.
pub record IsPids (s : Pids) : Type 0 where
  pub size : length s.pids ≡ proc_max
  pub cursor : s.next_free < proc_max

abbrev pub IsFree : List ℕ → ℕ → Type 0
IsFree pids i = get_or pids i 1 ≡ 0

module _ (pids : List ℕ) (start : ℕ) (low : start < proc_max) where
  search-some :
      (rounds i : ℕ) {p : ℕ}
      → i < proc_max
      → search rounds pids start i ≡ some p
      → (p < proc_max) × IsFree pids p
  unfolding search
  search-some zero i h e = absurd (cc e)
  search-some (suc rounds) i {p} h e = elim (Bool-cases (get_or pids i 1 == 0)) [
    | inl y ↦ let same : i ≡ p = ground arith in rw (← same) (h, (==_iff (get_or pids i 1) 0).0 y)
    | inr y ↦ elim (Bool-cases ((i + 1) % proc_max == start)) [
      | inl z ↦ absurd (ground arith)
      | inr z ↦ search-some rounds ((i + 1) % proc_max) (omega arith) (ground arith)
    ]
  ]

  -- The turns from the `n`-th on have all seen allocated entries.
  search-none :
      (rounds n i : ℕ)
      → n + rounds ≡ proc_max
      → i ≡ (start + n) % proc_max
      → search rounds pids start i ≡ none
      → (m : ℕ) → n ≤ m
      → m < proc_max
      → ¬ IsFree pids ((start + m) % proc_max)
  unfolding search
  search-none zero n i f p e m le lt unused = absurd (omega arith)
  search-none (suc rounds) n i f p e m le lt unused = elim (Bool-cases (get_or pids i 1 == 0)) [
    | inl y ↦ absurd (ground arith)
    | inr y ↦ elim (Bool-cases (n == m)) [
      | inl q ↦
          let here : (start + m) % proc_max ≡ i = omega (arith, (==_iff n m).0 q) in
          absurd (ground (arith, ap (λ k. get_or pids k 1) here))
      | inr q ↦ elim (Bool-cases ((i + 1) % proc_max == start)) [
        | inl z ↦ absurd (last ((==_iff ((i + 1) % proc_max) start).0 z) q)
        | inr z ↦
            search-none rounds (suc n) ((i + 1) % proc_max) (omega arith) (omega arith)
              (ground arith) m (ground arith) lt unused
      ]
    ]
  ]
    where
      last : (i + 1) % proc_max ≡ start → (n == m) ≡ false → ⊥
      last z q = omega (arith, differ q)
        where
          differ : (n == m) ≡ false → n ≢ m
          differ h = ground arith

found :
    (s : Pids) {p : ℕ}
    → (alloc s).0 ≡ some p
    → search proc_max s.pids s.next_free s.next_free ≡ some p
unfolding alloc
found s {p} e = elim (Option-cases (search proc_max s.pids s.next_free s.next_free)) [
  | inl n ↦ absurd (cc (rw (n, alloc) at e))
  | inr (q, f) ↦ f ∙ (rw (f, alloc) at e)
]

failed : (s : Pids) → (alloc s).0 ≡ none → search proc_max s.pids s.next_free s.next_free ≡ none
unfolding alloc
failed s e = elim (Option-cases (search proc_max s.pids s.next_free s.next_free)) [
  | inl n ↦ n
  | inr (q, f) ↦ absurd (cc (rw (f, alloc) at e))
]

-- What a successful `pid_alloc` does.
pub record Taken (s : Pids) (p : ℕ) (s' : Pids) : Type 0 where
  pub in_range : p < proc_max
  pub was_free : IsFree s.pids p
  pub now_taken : ¬ IsFree s'.pids p
  pub others : (q : ℕ) → p ≢ q → get_or s'.pids q 1 ≡ get_or s.pids q 1
  pub valid : IsPids s'

-- `pid_alloc` hands out only an identifier that was free, marks it and no other, and keeps the
-- array and the cursor in order; and it fails only when every identifier is allocated.
pub alloc-Taken :
    (s : Pids)
    → IsPids s
    → ((p : ℕ) → (alloc s).0 ≡ some p → Taken s p (alloc s).1)
      × ((alloc s).0 ≡ none → (q : ℕ) → q < proc_max → ¬ IsFree s.pids q)
unfolding alloc
alloc-Taken s v = (taken, full)
  where
    taken : (p : ℕ) → (alloc s).0 ≡ some p → Taken s p (alloc s).1
    taken p e =
        let f = found s e in
        let r = search-some s.pids s.next_free v.cursor proc_max s.next_free v.cursor f in
        rw (f, alloc)
          (record {
            in_range = r.0;
            was_free = r.1;
            now_taken = λ h. marked p r.0 h;
            others = λ q ne. get_or-set_ne s.pids p q 1 1 ne;
            valid = record { size = length-set s.pids p 1 ∙ v.size; cursor = omega arith };
          })
      where
        marked : (p : ℕ) → p < proc_max → IsFree (set s.pids p 1) p → ⊥
        marked p l h = omega (arith, get_or-set_self s.pids p 1 1 (omega (arith, v.size)), h)

    back : (q : ℕ) → q < proc_max → (s.next_free + (q + 32 - s.next_free) % proc_max) % proc_max ≡ q
    back q l = omega (arith, v.cursor)

    full : (alloc s).0 ≡ none → (q : ℕ) → q < proc_max → ¬ IsFree s.pids q
    full e q l h =
        search-none s.pids s.next_free v.cursor proc_max 0 s.next_free (omega arith)
          (omega (arith, v.cursor)) (failed s e) ((q + 32 - s.next_free) % proc_max) (omega arith)
          (omega arith) (ap (λ k. get_or s.pids k 1) (back q l) ∙ h)

search-first :
    (rounds : ℕ) (ps : List ℕ) (start i : ℕ) → IsFree ps i → search (suc rounds) ps start i ≡ some i
unfolding search
search-first rounds ps start i h = let e : (get_or ps i 1 == 0) ≡ true = ground arith in rw e

-- An identifier that was just freed is the next one that is handed out.
alloc-free : (s : Pids) (p : ℕ) → IsPids s → p < proc_max → (alloc (free s p)).0 ≡ some p
unfolding alloc free
alloc-free s p v l =
    let e : get_or (set s.pids p 0) p 1 ≡ 0 =
      get_or-set_self s.pids p 0 1 (omega (arith, v.size)) in
    rw (search-first 31 (set s.pids p 0) p p e, alloc) refl

-- A `pid_alloc` that fails changes nothing.
pub alloc-none : (s : Pids) → (alloc s).0 ≡ none → (alloc s).1 ≡ s
unfolding alloc
alloc-none s e = rw (failed s e, alloc) refl
