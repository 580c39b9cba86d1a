-- ===== src/Machine/EnvList.antt =====
-- The list of free environments as a sequence, and the list that `env_init` makes.
pub mod Ids
pub mod Directory
pub mod Commit
pub mod Alloc
use tps_sistemas_operativos.Prelude.{
  ℕ, zero, suc, ◌+◌, ◌-◌, ◌%◌, ◌^◌, ◌≤◌, ◌<◌, ◌≡◌, ◌≢◌, refl, sym, ap, ◌∙◌, subst, Bool, true,
  false, Option, none, some, List, [], ◌∷◌, ◌==◌, ltb, if◌then◌else◌, update, arith, Bool-cases,
  inl, inr, ◌⊎◌, ==-refl, ==_of_ne,
}
use tps_sistemas_operativos.Kernel.{nenv, envx, EnvStatus, Env, Kernel, status_of, set_env}
use tps_sistemas_operativos.Memory.Pages.FreeList.{NotIn, Distinct, Chain}
use tps_sistemas_operativos.Machine.{Machine, init_envs, env_init}

abbrev pub AllEnvsFree : Kernel → List ℕ → Type 0
AllEnvsFree k [] = Unit
AllEnvsFree k (e ∷ es) = (e < nenv) × (status_of k e ≡ EnvStatus.free) × AllEnvsFree k es

pub AllEnvsFree-other :
    (k k' : Kernel) (e : ℕ) (es : List ℕ)
    → ((f : ℕ) → f ≢ e → k'.envs f ≡ k.envs f)
    → NotIn e es
    → AllEnvsFree k es
    → AllEnvsFree k' es
AllEnvsFree-other k k' e [] s n a = tt
AllEnvsFree-other k k' e (f ∷ fs) s n a = (
  a.0,
  ap (λ v. v.env_status) (s f (λ q. n.0 (sym q))) ∙ a.1,
  AllEnvsFree-other k k' e fs s n.1 a.2,
)

-- A write to an environment that is not in the list leaves the list as it is.
pub Chain-elsewhere :
    (link link' : ℕ → Option ℕ) (e : ℕ) (first : Option ℕ) (es : List ℕ)
    → ((f : ℕ) → f ≢ e → link' f ≡ link f)
    → NotIn e es
    → Chain link first es
    → Chain link' first es
Chain-elsewhere link link' e first [] s n c = c
Chain-elsewhere link link' e first (f ∷ fs) s n c = (
  c.0,
  subst (λ x. Chain link' x fs) (sym (s f (λ q. n.0 (sym q))))
      (Chain-elsewhere link link' e (link f) fs s n.1 c.1),
)

-- An identifier that a slot may have: 0 before its first use, then a positive one with its index.
abbrev pub IsEnvId : ℕ → ℕ → Type 0
IsEnvId e env_id = (env_id ≡ 0) ⊎ ((4096 ≤ env_id) × (env_id < 2 ^ 31) × (envx env_id ≡ e))

-- The free environments, in the order in which they are given out, and the identifiers.
pub record EnvList (m : Machine) (es : List ℕ) : Type 0 where
  pub chain : Chain (λ e. (m.kernel.envs e).env_link) m.env_free_list es
  pub distinct : Distinct es
  pub all_free : AllEnvsFree m.kernel es
  pub ids : (e : ℕ) → e < nenv → IsEnvId e (m.kernel.envs e).env_id

abbrev started : ℕ → Env → Env
started e v = record v { env_id = 0; env_status = EnvStatus.free; env_link = some (e + 1) }

init_envs-at :
    (n : ℕ) (k : Kernel) (e : ℕ)
    → (init_envs n k).envs e ≡ (if ltb e n then started e (k.envs e) else k.envs e)
unfolding init_envs
init_envs-at zero k e = let l : ltb e 0 ≡ false = ground arith in rw l refl
init_envs-at (suc n) k e =
    let before = init_envs-at n k e in
    let at_n = init_envs-at n k n in
    elim (Bool-cases (e == n)) [
      | inl t ↦
          let q : e ≡ n = ground arith in
          let l : ltb e (suc n) ≡ true = ground arith in
          let g : ltb n n ≡ false = ground arith in
          let same : (init_envs n k).envs n ≡ k.envs n = at_n ∙ rw g refl in
          let here : started n ((init_envs n k).envs n) ≡ started e (k.envs e) =
            ap (started n) same ∙ ap (λ x. started x (k.envs x)) (sym q) in
          rw t (rw l here)
      | inr t ↦ let l : ltb e (suc n) ≡ ltb e n = ground arith in rw t (rw l before)
    ]

abbrev ended : Env → Env
ended v = record v { env_link = none }

-- `n` slots from `e` on
abbrev pub slots : ℕ → ℕ → List ℕ
slots zero e = []
slots (suc n) e = e ∷ slots n (e + 1)

slots-NotIn : (n e x : ℕ) → x < e → NotIn x (slots n e)
slots-NotIn zero e x h = tt
slots-NotIn (suc n) e x h =
    ((λ q. absurd (omega (arith, q, h))), slots-NotIn n (e + 1) x (omega arith))

slots-Distinct : (n e : ℕ) → Distinct (slots n e)
slots-Distinct zero e = tt
slots-Distinct (suc n) e = (slots-NotIn n (e + 1) e (omega arith), slots-Distinct n (e + 1))

-- the links that `env_init` leaves
abbrev IsLinked : (ℕ → Option ℕ) → Type 0
IsLinked link = (e : ℕ) → e < nenv → link e ≡ (if e == nenv - 1 then none else some (e + 1))

Chain-slots :
    (link : ℕ → Option ℕ) (n e : ℕ)
    → IsLinked link
    → e + n ≡ nenv
    → e < nenv
    → Chain link (some e) (slots n e)
Chain-slots link zero e l q h = absurd (omega (arith, q, h))
Chain-slots link (suc zero) e l q h =
    let t : (e == nenv - 1) ≡ true = ground (arith, q) in (refl, l e h ∙ rw t refl)
Chain-slots link (suc (suc n)) e l q h =
    let t : (e == nenv - 1) ≡ false = ground (arith, q) in
    (
      refl,
      subst (λ first. Chain link first (slots (suc n) (e + 1))) (sym (l e h ∙ rw t refl))
          (Chain-slots link (suc n) (e + 1) l (omega (arith, q)) (omega (arith, q))),
    )

module _ (m : Machine) where
  initialised : (e : ℕ) → e < nenv → (init_envs nenv m.kernel).envs e ≡ started e (m.kernel.envs e)
  initialised e h =
      let t : ltb e nenv ≡ true = ground arith in init_envs-at nenv m.kernel e ∙ rw t refl

  env_init-at :
      (e : ℕ)
      → e < nenv
      → (env_init m).kernel.envs e ≡ record (started e (m.kernel.envs e)) {
        env_link = if e == nenv - 1 then none else some (e + 1);
      }
  env_init-at e h = elim (Bool-cases (e == nenv - 1)) [
    | inl t ↦
        let q : e ≡ nenv - 1 = ground arith in
        unfold env_init in
        rw t (
          ap ended (initialised (nenv - 1) (omega arith))
          ∙ ap (λ x. ended (started x (m.kernel.envs x))) (sym q))
    | inr t ↦ unfold env_init in rw t (initialised e h)
  ]

  env_init-IsLinked : IsLinked (λ e. ((env_init m).kernel.envs e).env_link)
  env_init-IsLinked e h = ap (λ v. v.env_link) (env_init-at e h)

  env_init-AllEnvsFree : (n e : ℕ) → e + n ≡ nenv → AllEnvsFree (env_init m).kernel (slots n e)
  env_init-AllEnvsFree zero e q = tt
  env_init-AllEnvsFree (suc n) e q = (
    omega (arith, q),
    ap (λ v. v.env_status) (env_init-at e (omega (arith, q))),
    env_init-AllEnvsFree n (e + 1) (omega (arith, q)),
  )

-- `env_init` makes the list of all environments in the order of the table, each free and with the
-- identifier 0.
pub env_init-EnvList :
    (m : Machine)
    → EnvList (env_init m) (slots nenv 0)
      × ((e : ℕ) → e < nenv → ((env_init m).kernel.envs e).env_id ≡ 0)
env_init-EnvList m = (
  record {
    chain = unfold env_init in chain;
    distinct = slots-Distinct nenv 0;
    all_free = env_init-AllEnvsFree m nenv 0 refl;
    ids = λ e h. inl (no_id e h);
  },
  no_id,
)
  where
    no_id : (e : ℕ) → e < nenv → ((env_init m).kernel.envs e).env_id ≡ 0
    no_id e h = ap (λ v. v.env_id) (env_init-at m e h)

    chain : Chain (λ e. ((env_init m).kernel.envs e).env_link) (some 0) (slots nenv 0)
    chain =
        Chain-slots (λ e. ((env_init m).kernel.envs e).env_link) nenv 0 (env_init-IsLinked m) refl
          (omega arith)
