-- ===== src/Fs/Path/Parent.antt =====
-- The walk to the parent of the last component.
use wey_os.Base.{
  Result-cases, ℕ, zero, suc, ◌+◌, ◌<◌, ◌≡◌, refl, ap, sym, ◌∙◌, subst, inl, inr, Option, none,
  some, List, [], ◌∷◌, arith, length, Result, ok, err, einval,
}
use wey_os.Fs.Path.{
  Name, Mount, Vfs, Refs, path_iterate, look, inode_get, inode_put, step, parent_from,
  vfs_walk_parent,
}
use wey_os.Fs.Path.Names.{words, Iterated, at_end, at_name, path_iterate_lem}
use wey_os.Fs.Path.Walk.{crossed, one, get-one, put-one, step_lem, vfs_lookup_path_lem}

-- Where all words but the last lead, and the last one.
abbrev pub resolve_parent : Vfs → ℕ → List Name → Result (ℕ × Name)
resolve_parent vfs ino [] = err einval
resolve_parent vfs ino (w ∷ []) = ok (ino, w)
resolve_parent vfs ino (w ∷ x ∷ ws) = elim (look vfs ino w) [
  | err e ↦ err e
  | ok p ↦ resolve_parent vfs (crossed p p.mount) (x ∷ ws)
]

-- The references that a result carries.
abbrev pub held : Result (ℕ × Name) → ℕ → ℕ
held (err e) g = 0
held (ok (i, w)) g = one i g

-- A walk that ended, with its result and the counts.
abbrev pub Walked : Refs → Result (ℕ × Name) → Option (Result (ℕ × Name) × Refs) → Type 0
Walked base r o = (refs : Refs) × (o ≡ some (r, refs)) × ((g : ℕ) → refs g ≡ base g + held r g)

module _ (vfs : Vfs) (base : Refs) where
  -- What a walk with this much fuel does from any inode of which it holds a reference.
  abbrev WalksWith : ℕ → Type 0
  WalksWith fuel =
      (ino : ℕ) (cursor : List ℕ) (refs : Refs)
      → ((g : ℕ) → refs g ≡ base g + one ino g)
      → length cursor < fuel
      → Walked base (resolve_parent vfs ino (words cursor)) (parent_from fuel vfs ino cursor refs)

  one_round :
      (fuel ino : ℕ) (cursor : List ℕ) (refs : Refs)
      → WalksWith fuel
      → ((g : ℕ) → refs g ≡ base g + one ino g)
      → length cursor < suc fuel
      → (o : Option (Name × List ℕ)) → path_iterate cursor ≡ o
      → Iterated cursor o
      → (next : (rest : List ℕ) → Iterated rest (path_iterate rest))
      → Walked base
          (resolve_parent vfs ino (words cursor))
          (parent_from (suc fuel) vfs ino cursor refs)
  unfolding parent_from
  one_round fuel ino cursor refs ih h l none q (at_end w) next =
      rw (parent_from, q, w)
        (
          inode_put ino refs,
          refl,
          λ g. put-one ino refs g (base g + 0) (let a = h g in omega arith),
        )
  one_round fuel ino cursor refs ih h l (some (name, rest)) q (at_name w k) next =
      go (path_iterate rest) refl (next rest)
    where
      go :
          (o : Option (Name × List ℕ))
          → path_iterate rest ≡ o
          → Iterated rest o
          → Walked base
              (resolve_parent vfs ino (words cursor))
              (parent_from (suc fuel) vfs ino cursor refs)
      go none q' (at_end w') = rw (parent_from, q, w, w', q') (refs, refl, h)
      go (some (name', rest')) q' (at_name w' k') = elim (Result-cases (look vfs ino name)) [
        | inl (e, r) ↦
            let found = vfs_lookup_path_lem vfs refs ino name (err e) r in
            rw (parent_from, q, q', w, w', resolve_parent, r, found, found)
              (
                inode_put ino refs,
                refl,
                λ g. put-one ino refs g (base g + 0) (let a = h g in omega arith),
              )
        | inr (p, r) ↦
            let found = vfs_lookup_path_lem vfs refs ino name (ok p) r in
            let counts = λ (g : ℕ).
              step_lem ino p (inode_get p.dentry refs) g (base g)
                (let a = h g in let b = get-one p.dentry refs g in omega arith) in
            let s = step ino p (inode_get p.dentry refs) in
            rw (parent_from, q, q', w, w', resolve_parent, r, found, found)
              (subst
                (λ i.
                  Walked base (resolve_parent vfs i (name' ∷ words rest'))
                    (parent_from fuel vfs s.0 rest s.1))
                ((counts 0).0)
                (subst
                  (λ ws.
                    Walked base (resolve_parent vfs s.0 ws) (parent_from fuel vfs s.0 rest s.1))
                  w'
                  (ih s.0 rest s.1
                    (λ g. let c = counts g in c.1 ∙ ap (λ i. base g + one i g) (sym c.0))
                    (omega arith))))
      ]

  parent_from_lem : (fuel : ℕ) → WalksWith fuel
  parent_from_lem zero ino cursor refs h l = absurd (omega arith)
  parent_from_lem (suc fuel) ino cursor refs h l =
      one_round fuel ino cursor refs (parent_from_lem fuel) h l (path_iterate cursor) refl
        (path_iterate_lem cursor) path_iterate_lem

-- `vfs_walk_parent` always comes to an end. It looks all words of the path but the last up from the
-- root mount, returns where they lead and the last word, or EINVAL for a path without words, and
-- leaves one reference to the inode that it returns and none when it fails.
pub vfs_walk_parent_lem :
    (vfs : Vfs) (m : Mount) (path : List ℕ) (base : Refs)
    → vfs.root_mount ≡ some m
    → Walked base (resolve_parent vfs m.mnt_root (words path)) (vfs_walk_parent vfs path base)
unfolding vfs_walk_parent
vfs_walk_parent_lem vfs m path base e =
    subst
      (λ o. Walked base (resolve_parent vfs m.mnt_root (words path)) (elim o [
        | none ↦ some (err einval, base)
        | some n ↦ parent_from (suc (length path)) vfs n.mnt_root path (inode_get n.mnt_root base)
      ]))
      (sym e)
      (parent_from_lem vfs base (suc (length path)) m.mnt_root path (inode_get m.mnt_root base)
        (get-one m.mnt_root base) (omega arith))
