-- ===== src/Fs/Path/Walk.antt =====
-- A walk resolves the words of a path one after the other, and keeps one reference.
use wey_os.Base.{
  Result-cases, ℕ, zero, suc, ◌+◌, ◌<◌, ◌≡◌, refl, ap, sym, ◌∙◌, subst, inl, inr, Option, none,
  some, List, [], ◌∷◌, ◌==◌, if◌then◌else◌, arith, length, Result, ok, err, einval,
}
use wey_os.Fs.Path.{
  Name, Mount, VfsPath, Vfs, Refs, path_iterate, look, taken, vfs_lookup_path, inode_get, inode_put,
  step, mount_after, walk_from, vfs_walk_path,
}
use wey_os.Fs.Path.Names.{words, Iterated, at_end, at_name, path_iterate_lem}

-- The inode in which the next word is looked up.
abbrev pub crossed : VfsPath → Option Mount → ℕ
crossed p none = p.dentry
crossed p (some m) = m.mnt_root

-- Where the words lead from an inode: each is looked up in what the one before led to, and an inode
-- on which a file system is mounted gives way to its root.
abbrev pub resolve : Vfs → Mount → ℕ → List Name → Result (Mount × ℕ)
resolve vfs mnt ino [] = ok (mnt, ino)
resolve vfs mnt ino (w ∷ ws) = elim (look vfs ino w) [
  | err e ↦ err e
  | ok p ↦ resolve vfs (mount_after mnt p.mount) (crossed p p.mount) ws
]

-- One reference to the inode `i`.
abbrev pub one : ℕ → ℕ → ℕ
one i g = if i == g then 1 else 0

pub get-one : (i : ℕ) (refs : Refs) (g : ℕ) → inode_get i refs g ≡ refs g + one i g
unfolding inode_get
get-one i refs g = ground arith

pub put-one : (i : ℕ) (refs : Refs) (g m : ℕ) → refs g ≡ m + one i g → inode_put i refs g ≡ m
unfolding inode_put
put-one i refs g m e = ground arith

-- A step gives the references of the inodes it leaves back and keeps one on the new one.
pub step_lem :
    (cur : ℕ) (next : VfsPath) (refs : Refs) (g m : ℕ)
    → refs g ≡ m + one cur g + one next.dentry g
    → ((step cur next refs).0 ≡ crossed next next.mount)
      × ((step cur next refs).1 g ≡ m + one (crossed next next.mount) g)
unfolding step
step_lem cur next refs g m e = go next.mount
  where
    go :
        (o : Option Mount)
        → ((step cur (record { mount = o; dentry = next.dentry }) refs).0 ≡ crossed next o)
          × ((step cur (record { mount = o; dentry = next.dentry }) refs).1 g
              ≡ m + one (crossed next o) g)
    go none = (refl, put-one cur refs g (m + one next.dentry g) (omega arith))
    go (some r) = (
      refl,
      put-one next.dentry (inode_get r.mnt_root (inode_put cur refs)) g (m + one r.mnt_root g) (
          let a = get-one r.mnt_root (inode_put cur refs) g in
          let b = put-one cur refs g (m + one next.dentry g) (omega arith) in omega arith),
    )

-- The references that a result of a walk carries.
abbrev pub held : Result (Mount × ℕ) → ℕ → ℕ
held (err e) g = 0
held (ok (m, i)) g = one i g

-- A walk that ended, with its result and the counts.
abbrev pub Walked : Refs → Result (Mount × ℕ) → Option (Result (Mount × ℕ) × Refs) → Type 0
Walked base r o = (refs : Refs) × (o ≡ some (r, refs)) × ((g : ℕ) → refs g ≡ base g + held r g)

pub vfs_lookup_path_lem :
    (vfs : Vfs) (refs : Refs) (ino : ℕ) (name : Name) (r : Result VfsPath)
    → look vfs ino name ≡ r
    → vfs_lookup_path vfs refs ino name ≡ (r, taken r refs)
unfolding vfs_lookup_path
vfs_lookup_path_lem vfs refs ino name r e = ap (λ x. (x, taken x refs)) e

module _ (vfs : Vfs) (base : Refs) where
  -- What a walk with this much fuel does from any inode of which it holds a reference.
  abbrev WalksWith : ℕ → Type 0
  WalksWith fuel =
      (mnt : Mount) (ino : ℕ) (cursor : List ℕ) (refs : Refs)
      → ((g : ℕ) → refs g ≡ base g + one ino g)
      → length cursor < fuel
      → Walked base (resolve vfs mnt ino (words cursor)) (walk_from fuel vfs mnt ino cursor refs)

  one_round :
      (fuel : ℕ) (mnt : Mount) (ino : ℕ) (cursor : List ℕ) (refs : Refs)
      → WalksWith fuel
      → ((g : ℕ) → refs g ≡ base g + one ino g)
      → length cursor < suc fuel
      → (o : Option (Name × List ℕ)) → path_iterate cursor ≡ o
      → Iterated cursor o
      → Walked base
          (resolve vfs mnt ino (words cursor))
          (walk_from (suc fuel) vfs mnt ino cursor refs)
  unfolding walk_from
  one_round fuel mnt ino cursor refs ih h l none q (at_end w) = rw (walk_from, q, w) (refs, refl, h)
  one_round fuel mnt ino cursor refs ih h l (some (name, rest)) q (at_name w k) =
      elim (Result-cases (look vfs ino name)) [
        | inl (e, r) ↦
            let found = vfs_lookup_path_lem vfs refs ino name (err e) r in
            rw (walk_from, q, w, resolve, r, found, found)
              (
                inode_put ino refs,
                refl,
                λ g. put-one ino refs g (base g + 0) (let a = h g in omega arith),
              )
        | inr (p, r) ↦
            let found = vfs_lookup_path_lem vfs refs ino name (ok p) r in
            let counts = λ (g : ℕ).
              step_lem ino p (inode_get p.dentry refs) g (base g)
                (let a = h g in let b = get-one p.dentry refs g in omega arith) in
            let next = step ino p (inode_get p.dentry refs) in
            rw (walk_from, q, w, resolve, r, found, found)
              (subst
                (λ i.
                  Walked base (resolve vfs (mount_after mnt p.mount) i (words rest))
                    (walk_from fuel vfs (mount_after mnt p.mount) next.0 rest next.1))
                ((counts 0).0)
                (ih (mount_after mnt p.mount) next.0 rest next.1
                  (λ g. let c = counts g in c.1 ∙ ap (λ i. base g + one i g) (sym c.0))
                  (omega arith)))
      ]

  walk_from_lem : (fuel : ℕ) → WalksWith fuel
  walk_from_lem zero mnt ino cursor refs h l = absurd (omega arith)
  walk_from_lem (suc fuel) mnt ino cursor refs h l =
      one_round fuel mnt ino cursor refs (walk_from_lem fuel) h l (path_iterate cursor) refl
        (path_iterate_lem cursor)

-- `vfs_walk_path` always comes to an end. Its result is that of looking up the words of the path one
-- after the other from the root mount, and it leaves one reference to the inode that it returns and
-- none when it fails.
pub vfs_walk_path_lem :
    (vfs : Vfs) (m : Mount) (path : List ℕ) (base : Refs)
    → vfs.root_mount ≡ some m
    → Walked base (resolve vfs m m.mnt_root (words path)) (vfs_walk_path vfs path base)
unfolding vfs_walk_path
vfs_walk_path_lem vfs m path base e =
    subst
      (λ o. Walked base (resolve vfs m m.mnt_root (words path)) (elim o [
        | none ↦ some (err einval, base)
        | some n ↦ walk_from (suc (length path)) vfs n n.mnt_root path (inode_get n.mnt_root base)
      ]))
      (sym e)
      (walk_from_lem vfs base (suc (length path)) m m.mnt_root path (inode_get m.mnt_root base)
        (get-one m.mnt_root base) (omega arith))
