-- ===== src/Kernel/Sched/Priority.antt =====
-- `priority_MLFQ` and `sched_yield`: the guarantees of the priority scheduler.
use tps_sistemas_operativos.Prelude.{
  ℕ, ◌<◌, ◌≡◌, ◌≢◌, refl, sym, true, false, Option, some, ◌⊎◌, inl, inr, arith, ap, ◌∙◌,
  Option-cases,
}
use tps_sistemas_operativos.Kernel.{Kernel, Outcome}
use tps_sistemas_operativos.Kernel.Sched.{Level, queue}
use tps_sistemas_operativos.Kernel.Sched.Yield.{has_runnable, priority_mlfq, run_current, mlfq_loop}
use tps_sistemas_operativos.Kernel.Sched.Ring.{size, contents}
use tps_sistemas_operativos.Kernel.Sched.Levels.{number}
use tps_sistemas_operativos.Kernel.Sched.Boost.{HasRoom}
use tps_sistemas_operativos.Kernel.Sched.Pick.{
  first_ready, Picks, NoneReady, first_ready-FirstReady, is_some, has_runnable-first_ready,
  get_best_priority_queue-Answer, mlfq_loop-first_ready,
}
use tps_sistemas_operativos.Kernel.Sched.Choose.{Runs, run_demoted-Runs, size-contents}
use tps_sistemas_operativos.Kernel.Sched.Run

module _ (k : Kernel) (l : Level) where
  NoneReady-level : has_runnable k l ≡ false → NoneReady k (contents (queue k.sched l))
  NoneReady-level e = elim (Option-cases (first_ready k (contents (queue k.sched l)))) [
    | inl n ↦ rw n at (first_ready-FirstReady k (contents (queue k.sched l)))
    | inr (j, s) ↦ cc (has_runnable-first_ready k l, e, ap is_some s)
  ]

  abbrev scan : Option Outcome
  scan = mlfq_loop (size (queue k.sched l)) (queue k.sched l).beginning l (number l) k

  Picks-at :
      (j : ℕ)
      → first_ready k (contents (queue k.sched l)) ≡ some j
      → Picks k (contents (queue k.sched l)) j
  Picks-at j s = rw s at (first_ready-FirstReady k (contents (queue k.sched l)))

  Runs-at :
      (j : ℕ)
      → HasRoom k.sched
      → first_ready k (contents (queue k.sched l)) ≡ some j
      → Runs k l j scan
  Runs-at j h s =
      let q = queue k.sched l in
      rw (mlfq_loop-first_ready (size q) q.beginning l (number l) k)
        (rw s (run_demoted-Runs k l j h (omega (arith, size-contents q, (Picks-at j s).within))))

  Runs-level :
      HasRoom k.sched
      → has_runnable k l ≡ true
      → (j : ℕ) × Picks k (contents (queue k.sched l)) j × Runs k l j scan
  Runs-level h e = elim (Option-cases (first_ready k (contents (queue k.sched l)))) [
    | inl n ↦ cc (has_runnable-first_ready k l, e, ap is_some n)
    | inr (j, s) ↦ (j, Picks-at j s, Runs-at j h s)
  ]

-- A ready entry of the first queue runs.
pub Runs-first :
    (k : Kernel) (j : ℕ)
    → HasRoom k.sched
    → first_ready k (contents k.sched.q0) ≡ some j
    → Runs k Level.q0 j (priority_mlfq k)
Runs-first k j h e = elim (get_best_priority_queue-Answer k) [
  | inl (no_ready, n) ↦ cc (no_ready Level.q0, ready_q0)
  | inr (l, r, above, best) ↦ elim (Run.Level-discrete Level.q0 l) [
    | yes same ↦
        unfold priority_mlfq in
        rw (best ∙ ap (λ l. some (l, number l)) (sym same), priority_mlfq)
          (Runs-at k Level.q0 j h e)
    | no differ ↦ cc (above Level.q0 (positive l differ), ready_q0)
  ]
]
  where
    ready_q0 : has_runnable k Level.q0 ≡ true
    ready_q0 = has_runnable-first_ready k Level.q0 ∙ ap is_some e

    positive : (l : Level) → Level.q0 ≢ l → 0 < number l
    positive l d = ground arith

-- What a call of the scheduler decides: no queued environment is ready and the current one goes on
-- or the processor halts; or the first ready entry of the best queue that has one runs.
abbrev pub Decides : Kernel → Option Outcome → Type 0
Decides k o =
    (((m : Level) → NoneReady k (contents (queue k.sched m))) × (o ≡ some (run_current k)))
    ⊎ ((l : Level) × (j : ℕ) × Picks k (contents (queue k.sched l)) j
        × ((m : Level) → number m < number l → NoneReady k (contents (queue k.sched m)))
        × Runs k l j o)

-- Whenever the queues are well formed and fit into one, `priority_MLFQ` succeeds. If an environment
-- in some queue is runnable, it runs the first runnable one of the best queue that has one, which
-- moves down one queue and is counted; otherwise it falls back on the current environment.
pub priority_mlfq-Decides : (k : Kernel) → HasRoom k.sched → Decides k (priority_mlfq k)
priority_mlfq-Decides k h = elim (get_best_priority_queue-Answer k) [
  | inl (no_ready, e) ↦
      inl
        (λ m. NoneReady-level k m (no_ready m), unfold priority_mlfq in rw (e, priority_mlfq) refl)
  | inr (l, e, above, best) ↦
      let (j, picks, runs) = Runs-level k l h e in
      inr (
        l,
        j,
        picks,
        λ m d. NoneReady-level k m (above m d),
        unfold priority_mlfq in rw (best, priority_mlfq) runs,
      )
]
