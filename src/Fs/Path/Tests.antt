-- ===== src/Fs/Path/Tests.antt =====
-- A file system with a directory `a` on which another one with the file `b` is mounted.
use wey_os.Base.{
  ℕ, ◌≡◌, refl, Option, none, some, List, [], ◌∷◌, ◌==◌, if◌then◌else◌, Result, ok, err, einval,
}
use wey_os.Fs.Path.{
  Name, Mount, VfsPath, Vfs, Refs, path_iterate, component, skip_slashes, name_of, after_name, look,
  vfs_lookup_path, inode_get, inode_put, step, walk_from, vfs_walk_path, parent_from,
  vfs_walk_parent,
}
use wey_os.Fs.Path.Names.{words}
use wey_os.Fs.Path.Walk.{resolve, Walked, vfs_walk_path_lem}
use wey_os.Fs.Path.Parent.{resolve_parent, vfs_walk_parent_lem}

abbrev root : Mount
root = record { id = 0; mnt_root = 0 }

abbrev disk : Mount
disk = record { id = 1; mnt_root = 5 }

abbrev only : ℕ → ℕ → Name → Result (Option ℕ)
only c child [] = ok none
only c child (x ∷ xs) = if x == c then ok (some child) else ok none

abbrev vfs : Vfs
vfs = record {
  root_mount = some root;
  lookup = λ i. if i == 0 then some (only 97 1) else (if i == 5 then some (only 98 6) else none);
  mounted_here = λ i. if i == 1 then some disk else none;
}

-- "/a//b"
abbrev path : List ℕ
path = 47 ∷ 97 ∷ 47 ∷ 47 ∷ 98 ∷ []

abbrev counts : Refs
counts g = 1

abbrev result : {A B : Type 0} → Option (A × B) → Option A
result none = none
result (some r) = some r.0

walked : result (vfs_walk_path vfs path counts) ≡ some (ok (disk, 6))
unfolding vfs_walk_path walk_from path_iterate component skip_slashes name_of after_name
    vfs_lookup_path look step
walked = refl

parent_walked : result (vfs_walk_parent vfs path counts) ≡ some (ok (5, 98 ∷ []))
unfolding vfs_walk_parent parent_from path_iterate component skip_slashes name_of after_name
    vfs_lookup_path look step
parent_walked = refl

of_root : result (vfs_walk_parent vfs (47 ∷ []) counts) ≡ some (err einval)
unfolding vfs_walk_parent parent_from path_iterate component skip_slashes
of_root = refl

vfs_walk_path_lem_example :
    Walked counts (resolve vfs root 0 (words path)) (vfs_walk_path vfs path counts)
vfs_walk_path_lem_example = vfs_walk_path_lem vfs root path counts refl

vfs_walk_parent_lem_example :
    wey_os.Fs.Path.Parent.Walked counts
      (resolve_parent vfs 0 (words path))
      (vfs_walk_parent vfs path counts)
vfs_walk_parent_lem_example = vfs_walk_parent_lem vfs root path counts refl
