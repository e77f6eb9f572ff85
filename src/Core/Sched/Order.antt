-- ===== src/Core/Sched/Order.antt =====
-- The invariant of the scheduler, on the states, the identifiers and the queue of the tasks.
use wey_os.Base.{
  ℕ, ◌≡◌, ◌≢◌, inl, inr, refl, ap, sym, subst, ◌∙◌, Bool, true, false, List, [], ◌∷◌, ◌++◌, ◌==◌,
  if◌then◌else◌, arith, Bool-cases, ==_iff, In, Distinct, In-append, In-kept, In-last,
  Distinct-append,
}
use wey_os.Core.Sched.{TaskState, task_new, task_ready, is_blocked, is_running}

-- A task that waits for the processor: a child of `fork` keeps TASK_NEW until it runs.
abbrev pub is_waiting : TaskState → Bool
is_waiting task_new = true
is_waiting task_ready = true
is_waiting _ = false

abbrev pub is_ready : TaskState → Bool
is_ready task_ready = true
is_ready _ = false

-- `f` with `t` sent to `v`.
abbrev pub put : ℕ → TaskState → (ℕ → TaskState) → ℕ → TaskState
put t v f u = if u == t then v else f u

-- The states and identifiers of all tasks, the queue and the current task fit together.
pub record Fits (idle : ℕ) (state : ℕ → TaskState) (pid : ℕ → ℕ) (queue : List ℕ) (cur : ℕ)
    : Type 0 where
  -- No task is queued twice, and neither the current nor the idle task is.
  pub distinct : Distinct queue
  pub idle_out : ¬ In idle queue
  pub current_out : ¬ In cur queue
  -- What is queued waits for the processor, and no ready task is forgotten.
  pub queued : (t : ℕ) → In t queue → is_waiting (state t) ≡ true
  pub complete : (t : ℕ) → t ≢ idle → is_ready (state t) ≡ true → In t queue
  -- Of the tasks other than the idle one at most the current one is marked as running. The idle task
  -- keeps the mark when it is preempted.
  pub alone : (t : ℕ) → t ≢ cur → t ≢ idle → is_running (state t) ≡ false
  pub on_cpu : cur ≢ idle → is_waiting (state cur) ≡ false
  -- The idle task never waits, and only tasks that were not started lack an identifier.
  pub idle_awake : (is_ready (state idle) ≡ false) × (is_blocked (state idle) ≡ false)
  pub idle_pid : pid idle ≡ 0
  pub named : (t : ℕ) → t ≢ idle → pid t ≡ 0 → (state t ≡ task_new) × (¬ In t queue) × (t ≢ cur)

-- Only the values matter.
pub Fits-pointwise :
    {idle : ℕ} {state state' : ℕ → TaskState} {pid pid' : ℕ → ℕ} {queue : List ℕ} {cur : ℕ}
    → ((t : ℕ) → state' t ≡ state t)
    → ((t : ℕ) → pid' t ≡ pid t)
    → Fits idle state pid queue cur
    → Fits idle state' pid' queue cur
Fits-pointwise {idle} {state} {state'} {pid} {pid'} {queue} {cur} e e' f = record {
  distinct = f.distinct;
  idle_out = f.idle_out;
  current_out = f.current_out;
  queued = λ t i. ap is_waiting (e t) ∙ f.queued t i;
  complete = λ t n r. f.complete t n (sym (ap is_ready (e t)) ∙ r);
  alone = λ t n m. ap is_running (e t) ∙ f.alone t n m;
  on_cpu = λ n. ap is_waiting (e cur) ∙ f.on_cpu n;
  idle_awake = (ap is_ready (e idle) ∙ f.idle_awake.0, ap is_blocked (e idle) ∙ f.idle_awake.1);
  idle_pid = e' idle ∙ f.idle_pid;
  named = λ t n z. let g = f.named t n (sym (e' t) ∙ z) in (e t ∙ g.0, g.1, g.2);
}

module _ {idle : ℕ} {state : ℕ → TaskState} {pid : ℕ → ℕ} {queue : List ℕ} {cur : ℕ} where
  -- A task that neither runs nor waits comes to the end of the queue.
  pub Fits-enqueue :
      (v : TaskState) (t : ℕ)
      → is_waiting v ≡ true
      → t ≢ idle
      → t ≢ cur
      → ¬ In t queue
      → pid t ≢ 0
      → Fits idle state pid queue cur
      → Fits idle (put t v state) pid (queue ++ (t ∷ [])) cur
  Fits-enqueue v t w ni nc nq np f = record {
    distinct = Distinct-append t queue f.distinct nq;
    idle_out = λ i. elim (In-append idle t queue i) [ inl h ↦ f.idle_out h | inr e ↦ ni (sym e) ];
    current_out =
        λ i. elim (In-append cur t queue i) [ inl h ↦ f.current_out h | inr e ↦ nc (sym e) ];
    queued = λ u i. elim (Bool-cases (u == t)) [
      | inl e ↦ rw e w
      | inr e ↦
          rw e
            (elim (In-append u t queue i) [ inl h ↦ f.queued u h | inr s ↦ absurd (ground arith) ])
    ];
    complete = λ u n r. elim (Bool-cases (u == t)) [
      | inl e ↦ rw ((==_iff u t).0 e) (In-last t queue)
      | inr e ↦ In-kept u t queue (f.complete u n (rw e at r))
    ];
    alone = λ u n m. elim (Bool-cases (u == t)) [
      | inl e ↦ rw e (idles v w)
      | inr e ↦ rw e (f.alone u n m)
    ];
    on_cpu = λ n. let e : (cur == t) ≡ false = ground arith in rw e (f.on_cpu n);
    idle_awake = let e : (idle == t) ≡ false = ground arith in rw e f.idle_awake;
    idle_pid = f.idle_pid;
    named = λ u n z.
        let d : u ≢ t = λ e. np (sym (ap pid e) ∙ z) in
        let e : (u == t) ≡ false = ground arith in
        let g = f.named u n z in
        (rw e g.0, (λ i. elim (In-append u t queue i) [ inl h ↦ g.1 h | inr s ↦ d s ]), g.2);
  }
    where
      idles : (x : TaskState) → is_waiting x ≡ true → is_running x ≡ false
      idles x h = ground arith

  -- A new task is in no list yet.
  pub Fits-created :
      (t : ℕ) (pid' : ℕ → ℕ)
      → t ≢ idle
      → t ≢ cur
      → ¬ In t queue
      → ((u : ℕ) → u ≢ t → pid' u ≡ pid u)
      → Fits idle state pid queue cur
      → Fits idle (put t task_new state) pid' queue cur
  Fits-created t pid' ni nc nq same f = record {
    distinct = f.distinct;
    idle_out = f.idle_out;
    current_out = f.current_out;
    queued = λ u i. elim (Bool-cases (u == t)) [ inl e ↦ rw e refl | inr e ↦ rw e (f.queued u i) ];
    complete = λ u n r. elim (Bool-cases (u == t)) [
      | inl e ↦ absurd (cc (rw e at r))
      | inr e ↦ f.complete u n (rw e at r)
    ];
    alone =
        λ u n m. elim (Bool-cases (u == t)) [ inl e ↦ rw e refl | inr e ↦ rw e (f.alone u n m) ];
    on_cpu = λ n. let e : (cur == t) ≡ false = ground arith in rw e (f.on_cpu n);
    idle_awake = let e : (idle == t) ≡ false = ground arith in rw e f.idle_awake;
    idle_pid = same idle (λ e. ni (sym e)) ∙ f.idle_pid;
    named = λ u n z. elim (Bool-cases (u == t)) [
      | inl e ↦
          let s = (==_iff u t).0 e in
          rw e (refl, (λ i. nq (subst (λ x. In x queue) s i)), (λ h. nc (sym s ∙ h)))
      | inr e ↦
          let g = f.named u n (sym (same u (λ h. absurd (ground arith))) ∙ z) in
          rw e (g.0, g.1, g.2)
    ];
  }
