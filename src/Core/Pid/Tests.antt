-- ===== src/Core/Pid/Tests.antt =====
-- Two processes come and one goes.
use wey_os.Base.{ℕ, ◌≡◌, ◌<◌, refl, some, none, arith}
use wey_os.Core.Pid.{proc_max, search, alloc, init}
use wey_os.Core.Pid.Alloc.{IsPids, IsFree, Taken, alloc-Taken}

-- The identifier 0 stays reserved.
first_pid : (alloc init).0 ≡ some 1
unfolding alloc search init
first_pid = refl

init-IsPids : IsPids init
unfolding init
init-IsPids = omega arith

alloc-Taken_example :
    ((p : ℕ) → (alloc init).0 ≡ some p → Taken init p (alloc init).1)
    × ((alloc init).0 ≡ none → (q : ℕ) → q < proc_max → ¬ IsFree init.pids q)
alloc-Taken_example = alloc-Taken init init-IsPids
