-- ===== src/Fs/Path/Names.antt =====
-- `path_iterate` yields the words between slashes.
use wey_os.Base.{
  ℕ, ◌≤◌, ◌<◌, ◌≡◌, refl, ap, sym, ◌∙◌, inl, inr, false, Option, none, some, List, [], ◌∷◌, ◌++◌,
  ◌==◌, if◌then◌else◌, arith, Bool-cases, length, append-nil, append_assoc,
}
use wey_os.Fs.Path.{Name, slash, skip_slashes, name_of, after_name, component, path_iterate}

-- A word, unless it is empty, before the others.
abbrev pub emit : Name → List Name → List Name
emit [] ws = ws
emit (c ∷ cs) ws = (c ∷ cs) ∷ ws

-- The words between slashes, of a path of which `word` has been read.
abbrev pub words_from : Name → List ℕ → List Name
words_from word [] = emit word []
words_from word (c ∷ cs) =
    let ended = words_from [] cs in
    let longer = words_from (word ++ (c ∷ [])) cs in if c == slash then emit word ended else longer

abbrev pub words : List ℕ → List Name
words path = words_from [] path

words-skip_slashes : (cs : List ℕ) → words (skip_slashes cs) ≡ words cs
unfolding skip_slashes
words-skip_slashes [] = refl
words-skip_slashes (c ∷ cs) = elim (Bool-cases (c == slash)) [
  | inl e ↦ rw e (words-skip_slashes cs)
  | inr e ↦ ap (λ p. words p) (let s : skip_slashes (c ∷ cs) ≡ c ∷ cs = rw e refl in s)
]

words_from_lem :
    (word : Name) (cs : List ℕ)
    → words_from word cs ≡ emit (word ++ name_of cs) (words (after_name cs))
unfolding name_of after_name
words_from_lem word [] = ap (λ w. emit w []) (sym (append-nil word))
words_from_lem word (c ∷ cs) = elim (Bool-cases (c == slash)) [
  | inl e ↦ rw (e, e) (ap (λ w. emit w (words cs)) (sym (append-nil word)))
  | inr e ↦ rw e (
      words_from_lem (word ++ (c ∷ [])) cs
      ∙ ap (λ w. emit w (words (after_name cs))) (append_assoc word (c ∷ []) (name_of cs)))
]

length-skip_slashes : (cs : List ℕ) → length (skip_slashes cs) ≤ length cs
unfolding skip_slashes
length-skip_slashes [] = omega arith
length-skip_slashes (c ∷ cs) = let r = length-skip_slashes cs in ground arith

length-after_name : (cs : List ℕ) → length (after_name cs) ≤ length cs
unfolding after_name
length-after_name [] = omega arith
length-after_name (c ∷ cs) = let r = length-after_name cs in ground arith

-- A list that is empty or starts with a character of a name.
abbrev IsAtName : List ℕ → Type 0
IsAtName [] = Unit {0}
IsAtName (c ∷ cs) = (c == slash) ≡ false

skip_slashes-IsAtName : (cs : List ℕ) → IsAtName (skip_slashes cs)
unfolding skip_slashes
skip_slashes-IsAtName [] = tt
skip_slashes-IsAtName (c ∷ cs) = elim (Bool-cases (c == slash)) [
  | inl e ↦ rw e (skip_slashes-IsAtName cs)
  | inr e ↦ rw e e
]

-- What one call of `path_iterate` has taken from a path.
pub data Iterated (path : List ℕ) : Option (Name × List ℕ) → Type 0 where
  at_end : words path ≡ [] → Iterated path none
  at_name :
      {name : Name} {rest : List ℕ}
      → words path ≡ name ∷ words rest
      → length rest < length path
      → Iterated path (some (name, rest))

component_lem :
    (path cs : List ℕ)
    → IsAtName cs
    → words cs ≡ words path
    → length cs ≤ length path
    → Iterated path (component cs)
unfolding component name_of after_name
component_lem path [] v e l = at_end (sym e)
component_lem path (c ∷ cs) v e l =
    let w = words_from_lem (c ∷ []) cs in
    let k = length-after_name cs in rw v (at_name (sym e ∙ (rw v w)) (omega arith))

-- `path_iterate` yields the first word between slashes and moves the cursor behind it, and is at its
-- end when there is no word left.
pub path_iterate_lem : (path : List ℕ) → Iterated path (path_iterate path)
unfolding path_iterate
path_iterate_lem path =
    component_lem path (skip_slashes path) (skip_slashes-IsAtName path) (words-skip_slashes path)
      (length-skip_slashes path)
