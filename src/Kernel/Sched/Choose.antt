-- ===== src/Kernel/Sched/Choose.antt =====
-- `priority_MLFQ` as a whole: which environment runs next, and what happens when none can.
use tps_sistemas_operativos.Prelude.{
  ℕ, ◌+◌, ◌≤◌, ◌<◌, ◌≡◌, ◌≢◌, refl, sym, [], ◌∷◌, ◌++◌, Option, some, ◌==◌, arith, if◌then◌else◌,
  ap, ap₂, ◌∙◌, length, length-append, get_or, subst,
}
use tps_sistemas_operativos.Kernel.{nenv, envx, MlfqQueue, MlfqSched, Kernel, Outcome, running}
use tps_sistemas_operativos.Kernel.Sched.{Level, queue, sched_push_env}
use tps_sistemas_operativos.Kernel.Sched.Yield.{run_demoted, demoted, count_total}
use tps_sistemas_operativos.Kernel.Sched.Ring.{
  size, contents, IsValid, length-window, get_or-window,
}
use tps_sistemas_operativos.Kernel.Sched.Levels.{number, Pushed, total-set_queue}
use tps_sistemas_operativos.Kernel.Sched.Boost.{HasRoom, queued}
use tps_sistemas_operativos.Kernel.Sched.Run
use tps_sistemas_operativos.Kernel.Sched.Run.{Scheduled, entered}

pub size-contents : (q : MlfqQueue) → length (contents q) ≡ size q
size-contents q = length-window q.envs q.beginning (size q)

size-Pushed :
    {k k' : Kernel} {id n : ℕ} {l : Level}
    → Pushed k id n l k'
    → size (queue k'.sched l) ≡ size (queue k.sched l) + 1
size-Pushed {k} {k'} {id} {n} {l} p = omega (
  arith,
  ap length p.appended,
  length-append (contents (queue k.sched l)) (id ∷ []),
  size-contents (queue k.sched l),
  size-contents (queue k'.sched l),
)

levels-HasRoom : (s : MlfqSched) → ((m : Level) → IsValid (queue s m)) → queued s ≤ nenv → HasRoom s
levels-HasRoom s v r = record {
  valid0 = v Level.q0;
  valid1 = v Level.q1;
  valid2 = v Level.q2;
  valid3 = v Level.q3;
  room = r;
}

module _ {k k' : Kernel} {id n : ℕ} where
  size-other :
      {l : Level}
      → Pushed k id n l k'
      → (m : Level) → m ≢ l
      → size (queue k'.sched m) ≡ size (queue k.sched m)
  size-other p m d = ap size (p.others m d)

  queued-Pushed : (l : Level) → Pushed k id n l k' → queued k'.sched ≡ queued k.sched + 1
  queued-Pushed Level.q0 p = omega (
    arith,
    size-Pushed p,
    size-other p Level.q1 (cc),
    size-other p Level.q2 (cc),
    size-other p Level.q3 (cc),
  )
  queued-Pushed Level.q1 p = omega (
    arith,
    size-Pushed p,
    size-other p Level.q0 (cc),
    size-other p Level.q2 (cc),
    size-other p Level.q3 (cc),
  )
  queued-Pushed Level.q2 p = omega (
    arith,
    size-Pushed p,
    size-other p Level.q0 (cc),
    size-other p Level.q1 (cc),
    size-other p Level.q3 (cc),
  )
  queued-Pushed Level.q3 p = omega (
    arith,
    size-Pushed p,
    size-other p Level.q0 (cc),
    size-other p Level.q1 (cc),
    size-other p Level.q2 (cc),
  )

  HasRoom-Pushed :
      (l : Level) → Pushed k id n l k' → HasRoom k.sched → queued k.sched < nenv → HasRoom k'.sched
  HasRoom-Pushed l p h r =
      levels-HasRoom k'.sched
        (λ m. elim (Run.Level-discrete m l) [
          | yes e ↦ subst (λ m. IsValid (queue k'.sched m)) (sym e) p.valid
          | no d ↦ subst IsValid (sym (p.others m d)) (Run.HasRoom-IsValid k.sched m h)
        ])
        (omega (arith, queued-Pushed l p))

queue-count_total : (k : Kernel) (m : Level) → queue (count_total k).sched m ≡ queue k.sched m
queue-count_total k Level.q0 = refl
queue-count_total k Level.q1 = refl
queue-count_total k Level.q2 = refl
queue-count_total k Level.q3 = refl

pub HasRoom-count_total : (k : Kernel) → HasRoom k.sched → HasRoom (count_total k).sched
HasRoom-count_total k h = omega arith

-- What `priority_MLFQ` owes when entry `j` of queue `l` is to run.
abbrev pub Runs : Kernel → Level → ℕ → Option Outcome → Type 0
Runs k l j o =
    (k' : Kernel) × (o ≡ some (running (envx (get_or (contents (queue k.sched l)) j 0)) k'))
    × Scheduled k l j (envx (get_or (contents (queue k.sched l)) j 0)) k'
    × HasRoom k'.sched

module _ (k : Kernel) (l : Level) (j : ℕ) (h : HasRoom k.sched)
    (p : j < size (queue k.sched l)) where
  id-entry : Run.id k l j h p ≡ get_or (contents (queue k.sched l)) j 0
  id-entry = sym (
      get_or-window (queue k.sched l).envs (queue k.sched l).beginning (size (queue k.sched l)) j p)

  abbrev chosen : ℕ
  chosen = Run.id k l j h p

  queues_after :
      (k1 : Kernel)
      → Pushed (Run.without k l j h p) chosen (number (Run.next_level l)) (Run.next_level l) k1
      → (m : Level)
      → contents (queue (entered (envx chosen) k1).sched m) ≡ (
          if number m == number (Run.next_level l)
          then Run.taken_out k.sched l j m ++ get_or (contents (queue k.sched l)) j 0 ∷ []
          else Run.taken_out k.sched l j m)
  queues_after k1 p1 m = rw (Run.sched-entered (envx chosen) k1) (
      rw (queue-count_total k1 m) (elim (Run.Level-discrete m (Run.next_level l)) [
        | yes e ↦ rw (Run.number-eq m (Run.next_level l) e) (
            subst
              (λ m.
                contents (queue k1.sched m)
                ≡ Run.taken_out k.sched l j m ++ get_or (contents (queue k.sched l)) j 0 ∷ [])
              (sym e)
              (p1.appended
                ∙ ap₂ (λ xs x. xs ++ x ∷ []) (Run.contents-without k l j h p (Run.next_level l))
                    id-entry))
        | no d ↦
            rw (Run.number-ne m (Run.next_level l) d)
              (ap contents (p1.others m d) ∙ Run.contents-without k l j h p m)
      ]))

  scheduled :
      (k1 : Kernel)
      → Pushed (Run.without k l j h p) chosen (number (Run.next_level l)) (Run.next_level l) k1
      → Scheduled k l j (envx chosen) (entered (envx chosen) k1)
  scheduled k1 p1 =
      let e = envx chosen in
      record {
        queues = queues_after k1 p1;
        slot = ap envx id-entry;
        is_running = Run.entered-is_running e k1;
        level = ground (arith, Run.entered-level e k1, p1.marked e);
        executed = ground (arith, Run.entered-executed e k1, p1.marked e);
        total = ground (
          arith,
          Run.sched-entered e k1,
          p1.total,
          total-set_queue k.sched l (Run.rest k l j h p),
        );
        current = refl;
        preempted = λ c cur d r.
            Run.entered-preempted e k1 c (p1.current ∙ cur) d (ground (arith, p1.marked c));
        others = λ c cur d.
            Run.entered-others e k1 c (λ x. cur (sym p1.current ∙ x)) d
            ∙ ground (arith, p1.marked c);
      }

  HasRoom-entered :
      (k1 : Kernel)
      → Pushed (Run.without k l j h p) chosen (number (Run.next_level l)) (Run.next_level l) k1
      → HasRoom (entered (envx chosen) k1).sched
  HasRoom-entered k1 p1 =
      let (less, shorter) = Run.HasRoom-without k l j h p in
      rw (Run.sched-entered (envx chosen) k1)
        (HasRoom-count_total k1 (HasRoom-Pushed (Run.next_level l) p1 less (omega arith)))

  pub run_demoted-Runs : Runs k l j (run_demoted ((queue k.sched l).beginning + j) l (number l) k)
  run_demoted-Runs = finish (Run.pushed_lem k l j h p)
    where
      finish :
          (k1 : Kernel) × (sched_push_env (Run.without k l j h p) chosen (demoted (number l))
              ≡ some k1)
            × Pushed
                (Run.without k l j h p)
                chosen
                (number (Run.next_level l))
                (Run.next_level l)
                k1
          → Runs k l j (run_demoted ((queue k.sched l).beginning + j) l (number l) k)
      finish (k1, e, p1) = rw (← id-entry) (
        entered (envx chosen) k1,
        unfold run_demoted in rw e,
        scheduled k1 p1,
        HasRoom-entered k1 p1,
      )
