-- ===== src/Machine/Syscall/Ipc/Priority.antt =====
-- What `sys_env_set_priority` does to the queues.
use tps_sistemas_operativos.Prelude.{
  ℕ, ◌<◌, ◌≡◌, ◌≢◌, sym, ap, ◌∙◌, subst, true, false, not, ◌||◌, ◌&&◌, some, [], ◌∷◌, ◌++◌, ◌==◌,
  ltb, if◌then◌else◌, bind-some, arith, Bool-cases, inl, inr, ◌⊎◌, ==-refl,
}
use tps_sistemas_operativos.Kernel.{
  envx, nenv, is_negative, EnvStatus, Env, Kernel, status_of, set_env,
}
use tps_sistemas_operativos.Kernel.Sched.{
  Level, queue, get_queue, sched_destroy_env, sched_push_env,
}
use tps_sistemas_operativos.Kernel.Sched.Ring.{IsValid, contents, size}
use tps_sistemas_operativos.Kernel.Sched.Destroy.{Removed}
use tps_sistemas_operativos.Kernel.Sched.Levels.{
  number, get_queue-number, Pushed, sched_push_env-Pushed, sched_destroy_env-Removed,
}
use tps_sistemas_operativos.Machine.{Machine}
use tps_sistemas_operativos.Machine.Resolve.{envid2env-alive}
use tps_sistemas_operativos.Machine.Syscall.{Answer, set_kernel}
use tps_sistemas_operativos.Machine.Syscall.Ipc.{change_queue, is_better, sys_env_set_priority}

-- What the move of the environment `e` from the queue `l` to the queue `n` leaves.
pub record Moved (k : Kernel) (e : ℕ) (l n : Level) (k' : Kernel) : Type 0 where
  pub left : Removed (k.envs e).env_id (contents (queue k.sched l)) (contents (queue k'.sched l))
  pub joined : contents (queue k'.sched n) ≡ contents (queue k.sched n) ++ (k.envs e).env_id ∷ []
  pub other_queues : (o : Level) → o ≢ l → o ≢ n → queue k'.sched o ≡ queue k.sched o
  pub marked :
      (f : ℕ)
      → k'.envs f ≡ (if f == e then record (k.envs f) { current_queue = number n } else k.envs f)

abbrev in_queue : Level → Env → Env
in_queue n v = record v { current_queue = number n }

module _ (k : Kernel) (e : ℕ) (l n : Level) (apart : l ≢ n) (index : envx (k.envs e).env_id ≡ e)
    (at_level : (k.envs e).current_queue ≡ number l) (valid : IsValid (queue k.sched l))
    (valid_n : IsValid (queue k.sched n)) (room : size (queue k.sched n) < nenv) where
  change_queue-Moved : (k' : Kernel) × (change_queue e (number n) k ≡ some k') × Moved k e l n k'
  change_queue-Moved =
      let level : get_queue (k.envs (envx (k.envs e).env_id)).current_queue ≡ some l =
        ap (λ x. get_queue (k.envs x).current_queue) index
        ∙ ap get_queue at_level
        ∙ get_queue-number l in
      let (k1, destroys, removed, others, same) =
        sched_destroy_env-Removed k (k.envs e).env_id l level valid in
      let untouched = others n (λ q. apart (sym q)) in
      let (k2, pushes, pushed) =
        sched_push_env-Pushed k1 (k.envs e).env_id n (subst IsValid (sym untouched) valid_n)
          (subst (λ q. size q < nenv) (sym untouched) room) in
      (
        set_env k2 e (record (k2.envs e) { current_queue = number n }),
        changes k1 k2 destroys pushes same,
        record {
          left =
              subst (λ q. Removed (k.envs e).env_id (contents (queue k.sched l)) (contents q))
                (sym (pushed.others l apart)) removed;
          joined = pushed.appended ∙ ap (λ q. contents q ++ (k.envs e).env_id ∷ []) untouched;
          other_queues = λ o d c. pushed.others o c ∙ others o d;
          marked = λ f. marks k1 k2 pushed same f;
        },
      )
    where
      changes :
          (k1 k2 : Kernel)
          → sched_destroy_env k (k.envs e).env_id ≡ some k1
          → sched_push_env k1 (k.envs e).env_id (number n) ≡ some k2
          → k1.envs ≡ k.envs
          → change_queue e (number n) k
            ≡ some (set_env k2 e (record (k2.envs e) { current_queue = number n }))
      changes k1 k2 a b s =
          unfold change_queue in
          bind-some _ a ∙ bind-some _ (ap (λ f. sched_push_env k1 (f e).env_id (number n)) s ∙ b)

      marks :
          (k1 k2 : Kernel)
          → Pushed k1 (k.envs e).env_id (number n) n k2
          → k1.envs ≡ k.envs
          → (f : ℕ)
          → (set_env k2 e (record (k2.envs e) { current_queue = number n })).envs f
            ≡ (if f == e then record (k.envs f) { current_queue = number n } else k.envs f)
      marks k1 k2 p s f = elim (Bool-cases (f == e)) [
        | inl t ↦
            let q : f ≡ e = ground arith in
            let u : (e == envx (k.envs e).env_id) ≡ true = ap (λ x. e == x) index ∙ ==-refl e in
            let here : k2.envs e ≡ in_queue n (k.envs e) =
              p.marked e ∙ (rw u (ap (λ g. in_queue n (g e)) s)) in
            let there : in_queue n (k2.envs e) ≡ in_queue n (k.envs f) =
              ap (in_queue n) here ∙ ap (λ x. in_queue n (k.envs x)) (sym q) in
            rw t there
        | inr t ↦
            let u : (f == envx (k.envs e).env_id) ≡ false = ap (λ x. f == x) index ∙ t in
            rw t (p.marked f ∙ rw u (ap (λ g. g f) s))
      ]

number-small : (l : Level) → number l < 4
number-small Level.q0 = omega arith
number-small Level.q1 = omega arith
number-small Level.q2 = omega arith
number-small Level.q3 = omega arith

-- For an identifier other than 0 that names the caller itself or a living child of it, in a better
-- queue than the one asked for, when both queues are well formed and the one asked for has room,
-- `sys_env_set_priority` returns the number of the queue: one occurrence of the identifier leaves
-- the queue where the environment was, if there is one, the identifier comes last in the queue
-- asked for, the environment is marked with it, and no other queue or environment changes.
pub sys_env_set_priority-Moved :
    (m : Machine) (c envid : ℕ) (l n : Level)
    → m.kernel.curenv ≡ some c
    → envid ≢ 0
    → status_of m.kernel (envx envid) ≢ EnvStatus.free
    → (m.kernel.envs (envx envid)).env_id ≡ envid
    → (envx envid ≡ c) ⊎ ((m.kernel.envs (envx envid)).env_parent_id ≡ (m.kernel.envs c).env_id)
    → (m.kernel.envs (envx envid)).current_queue ≡ number l
    → number l < number n
    → IsValid (queue m.kernel.sched l)
    → IsValid (queue m.kernel.sched n)
    → size (queue m.kernel.sched n) < nenv
    → (k : Kernel) × (sys_env_set_priority envid (number n) m
        ≡ some (Answer.returns (number n) (set_kernel m k)))
      × Moved m.kernel (envx envid) l n k
sys_env_set_priority-Moved m c envid l n cur nonzero alive same may at_level lower valid valid_n
      room =
    let (k, changes, moved) =
      change_queue-Moved m.kernel (envx envid) l n apart (ap envx same) at_level valid valid_n
        room in
    (k, sets k changes, moved)
  where
    apart : l ≢ n
    apart q = absurd (omega (arith, lower, ap number q))

    sets :
        (k : Kernel)
        → change_queue (envx envid) (number n) m.kernel ≡ some k
        → sys_env_set_priority envid (number n) m
          ≡ some (Answer.returns (number n) (set_kernel m k))
    sets k changes =
        let small = number-small n in
        let in_range : (is_negative (number n) || ltb 3 (number n)) ≡ false = ground arith in
        unfold sys_env_set_priority in
        rw in_range (
          bind-some _ (envid2env-alive m.kernel envid nonzero alive same)
          ∙ bind-some _ cur
          ∙ rw (allowed may) (rw elsewhere (rw not_better (bind-some _ changes))))
      where
        elsewhere : ((m.kernel.envs (envx envid)).current_queue == number n) ≡ false
        elsewhere = ground (arith, at_level, lower)

        not_better : is_better (number n) (m.kernel.envs (envx envid)).current_queue ≡ false
        not_better = ground (arith, at_level, lower, number-small l)

        allowed :
            (envx envid ≡ c)
              ⊎ ((m.kernel.envs (envx envid)).env_parent_id ≡ (m.kernel.envs c).env_id)
            → (not (envx envid == c)
                && not ((m.kernel.envs (envx envid)).env_parent_id == (m.kernel.envs c).env_id))
              ≡ false
        allowed (inl q) = ground arith
        allowed (inr q) = ground arith
