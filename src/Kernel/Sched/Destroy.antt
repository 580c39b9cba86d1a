-- ===== src/Kernel/Sched/Destroy.antt =====
-- `sched_destroy_env`: what taking an identifier out of its queue does.
use mathlib.Core.List.{Perm}
use tps_sistemas_operativos.Prelude.{
  ℕ, zero, suc, ◌+◌, ◌%◌, ◌≡◌, refl, ◌∙◌, List, [], ◌∷◌, true, false, Bool, ◌||◌, ◌==◌, ◌⊎◌, inl,
  inr, Bool-cases, arith, ==_iff, ◌<◌, subst, get_or,
}
use tps_sistemas_operativos.Kernel.{nenv, MlfqQueue}
use tps_sistemas_operativos.Kernel.Sched.{sched_remove_env, destroy_loop}
use tps_sistemas_operativos.Kernel.Sched.Ring.{
  window, size, contents, IsValid, length-window, get_or-window, swap_out, swap_out-perm,
  contents-sched_remove_env, sched_remove_env-IsValid,
}

abbrev pub contains : ℕ → List ℕ → Bool
contains a [] = false
contains a (x ∷ xs) = (x == a) || contains a xs

-- One occurrence of `a` is taken out of `xs`, if there is one; nothing else is lost or added.
abbrev pub Removed : ℕ → List ℕ → List ℕ → Type 0
Removed a xs ys =
    ((contains a xs ≡ false) × (ys ≡ xs)) ⊎ ((contains a xs ≡ true) × Perm (a ∷ ys) xs)

module _ (q : MlfqQueue) (h : IsValid q) (env_id : ℕ) where
  -- the round that finds the identifier
  remove_found :
      (j : ℕ)
      → j < size q
      → q.envs ((q.beginning + j) % nenv) ≡ env_id
      → Perm (env_id ∷ contents (sched_remove_env q ((q.beginning + j) % nenv))) (contents q)
  remove_found j p e =
      let at_j : get_or (contents q) j 0 ≡ env_id =
        get_or-window q.envs q.beginning (size q) j p ∙ e in
      rw (contents-sched_remove_env q h j p) (
        subst (λ x. Perm (x ∷ swap_out (contents q) j) (contents q)) at_j
          (swap_out-perm (contents q) j (omega (arith, length-window q.envs q.beginning (size q)))))

  destroy_loop_found :
      (n i : ℕ)
      → (q.envs (i % nenv) == env_id) ≡ true
      → destroy_loop (suc n) i env_id q ≡ sched_remove_env q (i % nenv)
  unfolding destroy_loop
  destroy_loop_found n i e = rw (e, destroy_loop)

  destroy_loop_next :
      (n i : ℕ)
      → (q.envs (i % nenv) == env_id) ≡ false
      → destroy_loop (suc n) i env_id q ≡ destroy_loop n (i + 1) env_id q
  unfolding destroy_loop
  destroy_loop_next n i e = rw (e, destroy_loop)

  abbrev Destroyed : List ℕ → MlfqQueue → Type 0
  Destroyed ahead q' =
      ((contains env_id ahead ≡ false) × (q' ≡ q))
      ⊎ ((contains env_id ahead ≡ true) × Perm (env_id ∷ contents q') (contents q) × IsValid q')

  destroy_loop_lem :
      (n i j : ℕ)
      → i ≡ q.beginning + j
      → j + n ≡ size q
      → Destroyed (window q.envs i n) (destroy_loop n i env_id q)
  destroy_loop_lem zero i j e s = inl (refl, unfold destroy_loop in refl)
  destroy_loop_lem (suc n) i j e s = elim (Bool-cases (q.envs (i % nenv) == env_id)) [
    | inl found ↦ rw (destroy_loop_found n i found) (
        inr (
          rw found refl,
          rw e (remove_found j (omega arith) (rw (← e) ((==_iff _ _).0 found))),
          sched_remove_env-IsValid q h (i % nenv) (omega arith),
        ))
    | inr other ↦
        rw (destroy_loop_next n i other)
          (rw other (destroy_loop_lem n (i + 1) (j + 1) (omega arith) (omega arith)))
  ]

  pub destroy_loop-Destroyed : Destroyed (contents q) (destroy_loop (size q) q.beginning env_id q)
  destroy_loop-Destroyed = destroy_loop_lem (size q) q.beginning 0 (omega arith) (omega arith)
