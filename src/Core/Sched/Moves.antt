-- ===== src/Core/Sched/Moves.antt =====
-- The current task changes: the invariant of the scheduler for the tasks that leave and come.
use wey_os.Base.{
  ℕ, ◌≡◌, ◌≢◌, ◌⊎◌, inl, inr, refl, subst, ◌∙◌, true, false, List, [], ◌∷◌, ◌++◌, ◌==◌, arith,
  Bool-cases, ==_iff, In,
}
use wey_os.Core.Sched.{
  TaskState, task_new, task_ready, task_running, task_zombie, task_blocked, is_running,
}
use wey_os.Core.Sched.Order.{Fits, Fits-enqueue, Fits-pointwise, is_ready, is_waiting, put}

module _ {idle : ℕ} {state : ℕ → TaskState} {pid : ℕ → ℕ} {queue : List ℕ} {cur : ℕ} where
  -- The current task takes another state in which it does not wait for the processor.
  pub Fits-current :
      (v : TaskState)
      → cur ≢ idle
      → is_waiting v ≡ false
      → Fits idle state pid queue cur
      → Fits idle (put cur v state) pid queue cur
  Fits-current v ni nw f = record {
    distinct = f.distinct;
    idle_out = f.idle_out;
    current_out = f.current_out;
    queued = λ u i. elim (Bool-cases (u == cur)) [
      | inl e ↦ absurd (f.current_out (subst (λ x. In x queue) ((==_iff u cur).0 e) i))
      | inr e ↦ rw e (f.queued u i)
    ];
    complete = λ u n r. elim (Bool-cases (u == cur)) [
      | inl e ↦ absurd (unready v nw (rw e at r))
      | inr e ↦ f.complete u n (rw e at r)
    ];
    alone = λ u n m. let e : (u == cur) ≡ false = ground arith in rw e (f.alone u n m);
    on_cpu = λ n. let e : (cur == cur) ≡ true = ground arith in rw e nw;
    idle_awake = let e : (idle == cur) ≡ false = ground arith in rw e f.idle_awake;
    idle_pid = f.idle_pid;
    named = λ u n z.
        let g = f.named u n z in
        let e : (u == cur) ≡ false = ground (arith, g.2) in (rw e g.0, g.1, g.2);
  }
    where
      unready : (w : TaskState) → is_waiting w ≡ false → ¬ (is_ready w ≡ true)
      unready task_new h r = cc
      unready task_ready h r = cc
      unready task_running h r = cc
      unready task_zombie h r = cc
      unready task_blocked h r = cc

  -- The idle task takes the place of a task that does not run any more.
  pub Fits-idle :
      is_running (state cur) ≡ false
      → Fits idle state pid queue cur
      → Fits idle (put idle task_running state) pid queue idle
  Fits-idle stopped f = record {
    distinct = f.distinct;
    idle_out = f.idle_out;
    current_out = f.idle_out;
    queued = λ u i. elim (Bool-cases (u == idle)) [
      | inl e ↦ absurd (f.idle_out (subst (λ x. In x queue) ((==_iff u idle).0 e) i))
      | inr e ↦ rw e (f.queued u i)
    ];
    complete = λ u n r. let e : (u == idle) ≡ false = ground arith in f.complete u n (rw e at r);
    alone = λ u n m.
        let e : (u == idle) ≡ false = ground arith in
        rw e (elim (Bool-cases (u == cur)) [
          | inl s ↦ rw ((==_iff u cur).0 s) stopped
          | inr s ↦ f.alone u (λ h. absurd (ground arith)) m
        ]);
    on_cpu = λ n. absurd (n refl);
    idle_awake = let e : (idle == idle) ≡ true = ground arith in rw e (refl, refl);
    idle_pid = f.idle_pid;
    named = λ u n z.
        let g = f.named u n z in let e : (u == idle) ≡ false = ground arith in (rw e g.0, g.1, n);
  }

module _ {idle : ℕ} {state : ℕ → TaskState} {pid : ℕ → ℕ} {queue : List ℕ} {cur t : ℕ}
    (f : Fits idle state pid (t ∷ queue) cur) where
  -- The first task of the queue takes the place of one that does not run any more, or of the idle
  -- task.
  pub Fits-start :
      (is_running (state cur) ≡ false) ⊎ (cur ≡ idle)
      → Fits idle (put t task_running state) pid queue t
  Fits-start stopped = record {
    distinct = f.distinct.1;
    idle_out = λ i. f.idle_out (inr i);
    current_out = f.distinct.0;
    queued = λ u i. elim (Bool-cases (u == t)) [
      | inl e ↦ absurd (f.distinct.0 (subst (λ x. In x queue) ((==_iff u t).0 e) i))
      | inr e ↦ rw e (f.queued u (inr i))
    ];
    complete = λ u n r. elim (Bool-cases (u == t)) [
      | inl e ↦ absurd (cc (rw e at r))
      | inr e ↦ elim (f.complete u n (rw e at r)) [ inl s ↦ absurd (ground arith) | inr i ↦ i ]
    ];
    alone = λ u n m.
        let e : (u == t) ≡ false = ground arith in
        rw e (elim (Bool-cases (u == cur)) [
          | inl s ↦ elim stopped [
            | inl h ↦ rw ((==_iff u cur).0 s) h
            | inr h ↦ absurd (m ((==_iff u cur).0 s ∙ h))
          ]
          | inr s ↦ f.alone u (λ h. absurd (ground arith)) m
        ]);
    on_cpu = λ n. let e : (t == t) ≡ true = ground arith in rw e refl;
    idle_awake = let e : (idle == t) ≡ false = ground (arith, off) in rw e f.idle_awake;
    idle_pid = f.idle_pid;
    named = λ u n z.
        let g = f.named u n z in
        let e : (u == t) ≡ false = ground (arith, apart g.1) in
        (rw e g.0, (λ i. g.1 (inr i)), apart g.1);
  }
    where
      off : idle ≢ t
      off e = f.idle_out (inl e)

      apart : {u : ℕ} → ¬ In u (t ∷ queue) → u ≢ t
      apart n e = n (inl e)

module _ {idle : ℕ} {state : ℕ → TaskState} {pid : ℕ → ℕ} {queue : List ℕ} {cur t : ℕ} where
  -- The same for a task that was running: it becomes ready at the end of the queue.
  pub Fits-preempt :
      Fits idle state pid (t ∷ queue) cur
      → cur ≢ idle
      → pid cur ≢ 0
      → Fits idle (put cur task_ready (put t task_running state)) pid (queue ++ (cur ∷ [])) t
  Fits-preempt f ni np =
      Fits-pointwise (λ u. elim (Bool-cases (u == cur)) [ inl e ↦ rw e refl | inr e ↦ rw e refl ])
        (λ u. refl)
        (Fits-enqueue task_ready cur refl ni apart (λ i. f.current_out (inr i)) np
          (Fits-start (Fits-current task_zombie ni refl f) (inl off)))
    where
      apart : cur ≢ t
      apart e = f.current_out (inl e)

      off : is_running (put cur task_zombie state cur) ≡ false
      off = let e : (cur == cur) ≡ true = ground arith in rw e refl
