-- ===== src/Kernel/Sched/Service.antt =====
-- `sched_yield` under `SCHED_PRIORITIES`: it always finds something to do, and the boost serves
-- what waits in the lower queues.
use tps_sistemas_operativos.Prelude.{
  ℕ, zero, suc, ◌+◌, ◌≤◌, ◌<◌, ◌≡◌, refl, sym, List, [], ◌∷◌, ◌++◌, true, false, Bool, some, none,
  ◌==◌, inl, inr, arith, ap, ◌∙◌, get_or, Bool-cases, Option-cases, leb,
}
use tps_sistemas_operativos.Kernel.{
  nenv, envx, EnvStatus, MlfqSched, Kernel, status_of, Outcome, running, halted, in_monitor,
  returned,
}
use tps_sistemas_operativos.Kernel.Sched.{Level, queue, boost_envs}
use tps_sistemas_operativos.Kernel.Sched.Yield.{
  priority_mlfq, run_current, exists_below, is_active, sched_halt, max_mlfq_executions, count_run,
  boost_when_due, sched_yield_priorities, halt_if_returned, curenv_running,
}
use tps_sistemas_operativos.Kernel.Sched.Ring.{contents}
use tps_sistemas_operativos.Kernel.Sched.Boost.{
  HasRoom, AllFirst, boost_envs-AllFirst, lower_queues,
}
use tps_sistemas_operativos.Kernel.Sched.Pick.{first_ready}
use tps_sistemas_operativos.Kernel.Sched.Choose.{Runs, HasRoom-count_total}
use tps_sistemas_operativos.Kernel.Sched.Run.{
  entered, env_run-entered, sched-entered, entered-is_running,
}
use tps_sistemas_operativos.Kernel.Sched.Priority.{Runs-first, priority_mlfq-Decides}

-- What a call of `sched_yield` may end in. It never returns.
abbrev pub Yielded : Outcome → Type 0
Yielded (running e k) =
    HasRoom k.sched
    × (k.sched.total_executions ≤ max_mlfq_executions)
    × (status_of k e ≡ EnvStatus.running)
    × (k.curenv ≡ some e)
Yielded (halted k) =
    HasRoom k.sched × (k.sched.total_executions ≤ max_mlfq_executions) × (k.curenv ≡ none)
Yielded (in_monitor k) = (i : ℕ) → i < nenv → is_active (status_of k i) ≡ false
Yielded (returned k) = ⊥

exists_below_sound :
    (n : ℕ) (p : ℕ → Bool) → exists_below n p ≡ false → (i : ℕ) → i < n → p i ≡ false
unfolding exists_below
exists_below_sound zero p e i h = absurd (omega arith)
exists_below_sound (suc n) p e i h = elim (Bool-cases (i == n)) [
  | inl at_n ↦ ground arith
  | inr below ↦ exists_below_sound n p (ground arith) i (ground arith)
]

sched_halt-Yielded :
    (k : Kernel)
    → HasRoom k.sched
    → k.sched.total_executions ≤ max_mlfq_executions
    → Yielded (sched_halt k)
sched_halt-Yielded k h t = elim (Bool-cases (exists_below nenv (λ i. is_active (status_of k i)))) [
  | inl e ↦ unfold sched_halt in rw (e, sched_halt) (h, t, refl)
  | inr e ↦
      unfold sched_halt in
      rw (e, sched_halt) (exists_below_sound nenv (λ i. is_active (status_of k i)) e)
]

module _ (k : Kernel) (h : HasRoom k.sched)
    (t : k.sched.total_executions < max_mlfq_executions) where
  entered-Yielded : (c : ℕ) → Yielded (running c (entered c k))
  entered-Yielded c = (
    rw (sched-entered c k) (HasRoom-count_total k h),
    rw (sched-entered c k) (omega arith),
    entered-is_running c k,
    refl,
  )

  run_current-Yielded : Yielded (halt_if_returned (run_current k))
  run_current-Yielded = elim (Option-cases (curenv_running k)) [
    | inl e ↦
        unfold run_current in
        rw (e, run_current) (halting (sched_halt k) (sched_halt-Yielded k h (omega arith)))
    | inr (c, e) ↦
        unfold run_current in rw (e, run_current) (rw (env_run-entered c k) (entered-Yielded c))
  ]
    where
      halting : (o : Outcome) → Yielded o → Yielded (halt_if_returned o)
      halting (running e k) y = y
      halting (halted k) y = y
      halting (in_monitor k) y = y
      halting (returned k) y = absurd y

  abbrev Decided : Type 0
  Decided = (o : Outcome) × (priority_mlfq k ≡ some o) × Yielded (halt_if_returned o)

  scheduled-Decided : (l : Level) (j : ℕ) → Runs k l j (priority_mlfq k) → Decided
  scheduled-Decided l j (k', e, s, room) = (
    running (envx (get_or (contents (queue k.sched l)) j 0)) k',
    e,
    (room, omega (arith, s.total), s.is_running, s.current),
  )

  decided : Decided
  decided = elim (priority_mlfq-Decides k h) [
    | inl (no_ready, e) ↦ (run_current k, e, run_current-Yielded)
    | inr (l, j, picks, above, runs) ↦ scheduled-Decided l j runs
  ]

-- the state in which `priority_MLFQ` is called
abbrev Due : Kernel → Kernel → Type 0
Due k k1 =
    HasRoom k1.sched
    × (k1.sched.total_executions < max_mlfq_executions)
    × (boost_when_due k ≡ some k1)

HasRoom-reset : (k : Kernel) → HasRoom k.sched → HasRoom (record k.sched { total_executions = 0 })
HasRoom-reset k h = omega arith

due :
    (k : Kernel)
    → HasRoom k.sched
    → k.sched.total_executions ≤ max_mlfq_executions
    → (k1 : Kernel) × Due k k1
due k h t = elim (Bool-cases (leb max_mlfq_executions k.sched.total_executions)) [
  | inl e ↦ boosted (boost_envs-AllFirst k h) e
  | inr e ↦ (k, (h, ground arith, unfold boost_when_due in rw e))
]
  where
    boosted :
        (k' : Kernel) × (boost_envs k ≡ some k') × AllFirst k k'
        → leb max_mlfq_executions k.sched.total_executions ≡ true
        → (k1 : Kernel) × Due k k1
    boosted (k', e, a) d = (
      record k' { sched = record k'.sched { total_executions = 0 } },
      (HasRoom-reset k' a.has_room, omega arith, unfold boost_when_due in rw d (rw e refl)),
    )

-- With well-formed queues that fit into one and at most 50 dispatches since the last boost, a call
-- of `sched_yield` succeeds and never returns: it ends in an environment that is marked as running
-- and is the current one, in a halted processor with no current environment, or in the monitor
-- when no environment at all is runnable, running or dying. The queues stay well formed, and the
-- count of dispatches stays at most 50.
pub sched_yield_priorities-Yielded :
    (k : Kernel)
    → HasRoom k.sched
    → k.sched.total_executions ≤ max_mlfq_executions
    → (o : Outcome) × (sched_yield_priorities k ≡ some o) × Yielded o
sched_yield_priorities-Yielded k h t = finish (due (count_run k) h t)
  where
    finish :
        (k1 : Kernel) × Due (count_run k) k1
        → (o : Outcome) × (sched_yield_priorities k ≡ some o) × Yielded o
    finish (k1, (h1, t1, e)) =
        let (o, d, y) = decided k1 h1 t1 in
        (halt_if_returned o, unfold sched_yield_priorities in rw e (rw d refl), y)

-- A boost changes no status, so what is ready stays so.
first_ready-same :
    (k k1 : Kernel)
    → ((e : ℕ) → status_of k1 e ≡ status_of k e)
    → (ids : List ℕ) → first_ready k1 ids ≡ first_ready k ids
first_ready-same k k1 h [] = refl
first_ready-same k k1 h (x ∷ xs) = ground (arith, h (envx x), first_ready-same k k1 h xs)

status-AllFirst : (k k1 : Kernel) → AllFirst k k1 → (e : ℕ) → status_of k1 e ≡ status_of k e
status-AllFirst k k1 a e = ground (arith, a.marked e)

abbrev pub all_queued : MlfqSched → List ℕ
all_queued s = contents s.q0 ++ lower_queues s

-- With well-formed queues that together fit into one: when 50 dispatches have been made since the
-- last boost and some environment in the queues is runnable, `sched_yield` runs the first runnable
-- one of the four queues read one after the other, whatever the level it waits at, and the count of
-- dispatches starts again from this one.
pub sched_yield_priorities-boosts :
    (k : Kernel) (j : ℕ)
    → HasRoom k.sched
    → max_mlfq_executions ≤ k.sched.total_executions
    → first_ready k (all_queued k.sched) ≡ some j
    → (k' : Kernel) × (sched_yield_priorities k
        ≡ some (running (envx (get_or (all_queued k.sched) j 0)) k'))
      × (k'.sched.total_executions ≡ 1)
      × HasRoom k'.sched
sched_yield_priorities-boosts k j h t picks = finish (boost_envs-AllFirst (count_run k) h)
  where
    Goal : Type 0
    Goal =
        (k' : Kernel) × (sched_yield_priorities k
          ≡ some (running (envx (get_or (all_queued k.sched) j 0)) k'))
        × (k'.sched.total_executions ≡ 1)
        × HasRoom k'.sched

    at_limit : leb max_mlfq_executions k.sched.total_executions ≡ true
    at_limit = ground arith

    ends :
        (k1 : Kernel)
        → boost_envs (count_run k) ≡ some k1
        → AllFirst (count_run k) k1
        → (k2 : Kernel) → k2 ≡ record k1 { sched = record k1.sched { total_executions = 0 } }
        → contents k2.sched.q0 ≡ all_queued k.sched
        → Runs k2 Level.q0 j (priority_mlfq k2)
        → Goal
    ends k1 e a k2 same ids (k', d, s, room) =
        let due_now : boost_when_due (count_run k) ≡ some k2 =
          unfold boost_when_due in rw (at_limit, boost_when_due) (rw e (ap some (sym same))) in
        (
          k',
          unfold sched_yield_priorities in
              rw due_now (rw d (ap (λ xs. some (running (envx (get_or xs j 0)) k')) ids)),
          s.total
              ∙ ap (λ (x : MlfqSched). x.total_executions + 1) (ap (λ (x : Kernel). x.sched) same),
          room,
        )

    finish : (k1 : Kernel) × (boost_envs (count_run k) ≡ some k1) × AllFirst (count_run k) k1 → Goal
    finish (k1, e, a) =
        let k2 = record k1 { sched = record k1.sched { total_executions = 0 } } in
        ends k1 e a k2 refl a.first (
          Runs-first k2 j (HasRoom-reset k1 a.has_room) (
            ap (first_ready k2) a.first
            ∙ first_ready-same k k2 (status-AllFirst (count_run k) k1 a) (all_queued k.sched)
            ∙ picks))
