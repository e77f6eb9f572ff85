-- ===== src/Fs/Path.antt =====
-- Path walks, src/fs/path.c. A path is the list of its characters before the terminator. An inode is
-- a number, its reference count a function of it; what `inode_put` destroys at zero is not modelled
-- here. The `lookup` of a file system is a parameter, which takes a reference to the inode that it
-- returns, as `ramfs_lookup` does. Locks are taken to exclude every other call.
pub mod Names
pub mod Walk
pub mod Parent
mod Tests
use wey_os.Base.{
  ℕ, zero, suc, ◌+◌, ◌-◌, Bool, true, false, Option, none, some, List, [], ◌∷◌, ◌==◌, if◌then◌else◌,
  length, Result, ok, err, Errno, einval, enoent, enosys,
}

abbrev pub Name : Type 0
Name = List ℕ

-- `'/'`
abbrev pub slash : ℕ
slash = 47

-- `while (*path == '/') path++`
pub skip_slashes : List ℕ → List ℕ
skip_slashes [] = []
skip_slashes (c ∷ cs) = let rest = skip_slashes cs in if c == slash then rest else c ∷ cs

-- The characters that `while (*path != '/' && *path != '\0') path++` passes.
pub name_of : List ℕ → Name
name_of [] = []
name_of (c ∷ cs) = let rest = name_of cs in if c == slash then [] else c ∷ rest

-- Where that loop stops.
pub after_name : List ℕ → List ℕ
after_name [] = []
after_name (c ∷ cs) = let rest = after_name cs in if c == slash then c ∷ cs else rest

-- `path_iterate`, once the slashes are skipped.
pub component : List ℕ → Option (Name × List ℕ)
component [] = none
component (c ∷ cs) = some (name_of (c ∷ cs), after_name (c ∷ cs))

-- `path_iterate`: the component and the new cursor, or 0 at the end.
pub path_iterate : List ℕ → Option (Name × List ℕ)
path_iterate cursor = component (skip_slashes cursor)

-- `struct mount`, as far as walks read it; `id` tells mounts apart.
pub record Mount : Type 0 where
  pub id : ℕ
  pub mnt_root : ℕ

-- `struct path`
pub record VfsPath : Type 0 where
  pub mount : Option Mount
  pub dentry : ℕ

-- What a walk meets: `root_mount`, `i_op->lookup` of an inode if it has one, with NULL as
-- `ok none`, and `mounted_here` of an inode.
pub record Vfs : Type 0 where
  pub root_mount : Option Mount
  pub lookup : ℕ → Option (Name → Result (Option ℕ))
  pub mounted_here : ℕ → Option Mount

abbrev pub Refs : Type 0
Refs = ℕ → ℕ

-- `inode_get`
pub inode_get : ℕ → Refs → Refs
inode_get i refs g = if i == g then refs g + 1 else refs g

-- The decrement of `inode_put`.
pub inode_put : ℕ → Refs → Refs
inode_put i refs g = if i == g then refs g - 1 else refs g

-- What `vfs_lookup_path` finds.
pub look : Vfs → ℕ → Name → Result VfsPath
look vfs parent name = elim (vfs.lookup parent) [
  | none ↦ err enosys
  | some f ↦ elim (f name) [
    | err e ↦ err e
    | ok none ↦ err enoent
    | ok (some child) ↦ ok (record { mount = vfs.mounted_here child; dentry = child })
  ]
]

-- The reference that `i_op->lookup` takes.
abbrev pub taken : Result VfsPath → Refs → Refs
taken (err e) refs = refs
taken (ok p) refs = inode_get p.dentry refs

-- `vfs_lookup_path`
pub vfs_lookup_path : Vfs → Refs → ℕ → Name → Result VfsPath × Refs
vfs_lookup_path vfs refs parent name = (look vfs parent name, taken (look vfs parent name) refs)

-- The step of both walks from an inode to `next`: the inode that is then current, and the counts.
pub step : ℕ → VfsPath → Refs → ℕ × Refs
step cur next refs = elim next.mount [
  | none ↦ (next.dentry, inode_put cur refs)
  | some m ↦ (m.mnt_root, inode_put next.dentry (inode_get m.mnt_root (inode_put cur refs)))
]

-- The mount after that step.
abbrev pub mount_after : Mount → Option Mount → Mount
mount_after curr none = curr
mount_after curr (some m) = m

-- The loop of `vfs_walk_path`; `none` is out of fuel.
pub walk_from : ℕ → Vfs → Mount → ℕ → List ℕ → Refs → Option (Result (Mount × ℕ) × Refs)
walk_from zero vfs mnt ino cursor refs = none
walk_from (suc fuel) vfs mnt ino cursor refs = elim (path_iterate cursor) [
  | none ↦ some (ok (mnt, ino), refs)
  | some (comp, rest) ↦
      let (found, refs') = vfs_lookup_path vfs refs ino comp in
      elim found [
        | err e ↦ some (err e, inode_put ino refs')
        | ok next ↦
            walk_from fuel vfs (mount_after mnt next.mount) ((step ino next refs').0) rest
              ((step ino next refs').1)
      ]
]

-- `vfs_walk_path`; also `vfs_walk`, which passes on its inode or error.
pub vfs_walk_path : Vfs → List ℕ → Refs → Option (Result (Mount × ℕ) × Refs)
vfs_walk_path vfs path refs = elim vfs.root_mount [
  | none ↦ some (err einval, refs)
  | some m ↦ walk_from (suc (length path)) vfs m m.mnt_root path (inode_get m.mnt_root refs)
]

-- The loop of `vfs_walk_parent`.
pub parent_from : ℕ → Vfs → ℕ → List ℕ → Refs → Option (Result (ℕ × Name) × Refs)
parent_from zero vfs cur cursor refs = none
parent_from (suc fuel) vfs cur cursor refs = elim (path_iterate cursor) [
  | none ↦ some (err einval, inode_put cur refs)
  | some (comp, rest) ↦ elim (path_iterate rest) [
    | none ↦ some (ok (cur, comp), refs)
    | some n ↦
        let (found, refs') = vfs_lookup_path vfs refs cur comp in
        elim found [
          | err e ↦ some (err e, inode_put cur refs')
          | ok next ↦ parent_from fuel vfs ((step cur next refs').0) rest ((step cur next refs').1)
        ]
  ]
]

-- `vfs_walk_parent`: the parent and the last component.
pub vfs_walk_parent : Vfs → List ℕ → Refs → Option (Result (ℕ × Name) × Refs)
vfs_walk_parent vfs path refs = elim vfs.root_mount [
  | none ↦ some (err einval, refs)
  | some m ↦ parent_from (suc (length path)) vfs m.mnt_root path (inode_get m.mnt_root refs)
]
