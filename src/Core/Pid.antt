-- ===== src/Core/Pid.antt =====
-- Process identifiers, src/core/pid.c. The array `pids` is a list of PROC_MAX entries. The spinlock
-- excludes other callers. `getpid` and `waitpid` stand with the tasks.
pub mod Alloc
mod Tests
use wey_os.Base.{
  ℕ, zero, suc, ◌+◌, ◌%◌, Option, none, some, List, [], ◌∷◌, ◌==◌, if◌then◌else◌, set, get_or,
  replicate,
}

-- `PROC_MAX`
abbrev pub proc_max : ℕ
proc_max = 32

-- `PID_FREE` and `PID_ALLOC`
abbrev pub pid_free_mark : ℕ
pid_free_mark = 0

abbrev pub pid_alloc_mark : ℕ
pid_alloc_mark = 1

-- `pids` and `next_free_pid`
pub record Pids : Type 0 where
  pub pids : List ℕ
  pub next_free : ℕ

-- The loop of `pid_alloc`, for at most `rounds` turns; `none` is the end of the loop.
unfoldable pub search : ℕ → List ℕ → ℕ → ℕ → Option ℕ
search zero pids start i = none
search (suc rounds) pids start i =
    let on = search rounds pids start ((i + 1) % proc_max) in
    if get_or pids i pid_alloc_mark == pid_free_mark
    then some i
    else if (i + 1) % proc_max == start
    then none
    else on

-- `pid_alloc`; `none` is -ENOENT. PROC_MAX turns are enough.
unfoldable pub alloc : Pids → Option ℕ × Pids
alloc s = elim (search proc_max s.pids s.next_free s.next_free) [
  | none ↦ (none, s)
  | some i ↦ (some i, record { pids = set s.pids i pid_alloc_mark; next_free = (i + 1) % proc_max })
]

-- `pid_free`
unfoldable pub free : Pids → ℕ → Pids
free s pid = record { pids = set s.pids pid pid_free_mark; next_free = pid }

-- `pid_init`: the first entry is reserved.
pub init : Pids
init = record {
  pids = set (replicate proc_max pid_free_mark) 0 pid_alloc_mark;
  next_free = pid_alloc_mark;
}
