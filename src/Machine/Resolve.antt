-- ===== src/Machine/Resolve.antt =====
-- Which environment an identifier names.
use tps_sistemas_operativos.Prelude.{
  ℕ, ◌≡◌, ◌≢◌, refl, sym, ap, ◌∙◌, subst, Bool, true, false, not, ◌&&◌, ◌||◌, none, some, ◌==◌,
  arith, Bool-cases, inl, inr, ◌⊎◌,
}
use tps_sistemas_operativos.Kernel.{envx, EnvStatus, Kernel, status_of}
use tps_sistemas_operativos.Machine.{Lookup, envid2env, is_free, is_current}

abbrev pub IsOpen : Kernel → ℕ → ℕ → Bool → ℕ → Type 0
IsOpen k c envid checkperm e =
    (status_of k e ≢ EnvStatus.free)
    × ((k.envs e).env_id ≡ envid)
    × ((checkperm ≡ false) ⊎ ((e ≡ c) ⊎ ((k.envs e).env_parent_id ≡ (k.envs c).env_id)))

-- An identifier names an environment for `curenv`: 0 is the current environment, any other one
-- names the environment of its slot that is not free and has exactly this identifier; with
-- `checkperm` that is the current environment or a child of it.
abbrev pub Names : Kernel → ℕ → ℕ → Bool → ℕ → Type 0
Names k c envid checkperm e =
    ((envid ≡ 0) × (e ≡ c)) ⊎ ((envid ≢ 0) × (e ≡ envx envid) × IsOpen k c envid checkperm e)

-- The answer of `envid2env` and the environments that the identifier names.
pub record Resolves (k : Kernel) (c envid : ℕ) (checkperm : Bool) : Type 0 where
  pub lookup : Lookup
  pub answers : envid2env envid checkperm k ≡ some lookup
  pub sound : (e : ℕ) → lookup ≡ Lookup.store (some e) → Names k c envid checkperm e
  pub complete : (e : ℕ) → Names k c envid checkperm e → lookup ≡ Lookup.store (some e)
  pub not_null : lookup ≢ Lookup.store none

free_cases :
    (s : EnvStatus)
    → ((is_free s ≡ true) × (s ≡ EnvStatus.free)) ⊎ ((is_free s ≡ false) × (s ≢ EnvStatus.free))
free_cases EnvStatus.free = inl (refl, refl)
free_cases EnvStatus.dying = inr (refl, (λ e. absurd (ground (arith, e))))
free_cases EnvStatus.runnable = inr (refl, (λ e. absurd (ground (arith, e))))
free_cases EnvStatus.running = inr (refl, (λ e. absurd (ground (arith, e))))
free_cases EnvStatus.not_runnable = inr (refl, (λ e. absurd (ground (arith, e))))

store_injective : (a b : ℕ) → Lookup.store (some a) ≡ Lookup.store (some b) → a ≡ b
store_injective a b e = ground arith

Names-unique :
    (k : Kernel) (c envid : ℕ) (checkperm : Bool) (e f : ℕ)
    → Names k c envid checkperm e
    → Names k c envid checkperm f
    → e ≡ f
Names-unique k c envid checkperm e f (inl a) (inl b) = a.1 ∙ sym b.1
Names-unique k c envid checkperm e f (inl a) (inr b) = absurd (b.0 a.0)
Names-unique k c envid checkperm e f (inr a) (inl b) = absurd (a.0 b.0)
Names-unique k c envid checkperm e f (inr a) (inr b) = a.1 ∙ sym b.1

module _ (k : Kernel) (c envid : ℕ) (checkperm : Bool) (cur : k.curenv ≡ some c) where
  accepted :
      (e : ℕ)
      → envid2env envid checkperm k ≡ some (Lookup.store (some e))
      → Names k c envid checkperm e
      → Resolves k c envid checkperm
  accepted e a n = record {
    lookup = Lookup.store (some e);
    answers = a;
    sound = λ f q. subst (Names k c envid checkperm) (store_injective e f q) n;
    complete = λ f o. ap (λ x. Lookup.store (some x)) (Names-unique k c envid checkperm e f n o);
    not_null = λ q. absurd (ground (arith, q));
  }

  refused :
      envid2env envid checkperm k ≡ some Lookup.bad_env
      → ((e : ℕ) → ¬ Names k c envid checkperm e)
      → Resolves k c envid checkperm
  refused a nobody = record {
    lookup = Lookup.bad_env;
    answers = a;
    sound = λ f q. absurd (ground (arith, q));
    complete = λ f o. absurd (nobody f o);
    not_null = λ q. absurd (ground (arith, q));
  }

  abbrev slot : ℕ
  slot = envx envid

  resolve_current : envid ≡ 0 → Resolves k c envid checkperm
  resolve_current z =
      let t : (envid == 0) ≡ true = ground (arith, z) in
      accepted c (unfold envid2env in rw t (rw cur refl)) (inl (z, refl))

  module _ (nonzero : (envid == 0) ≡ false) where
    Names-IsOpen : (e : ℕ) → Names k c envid checkperm e → IsOpen k c envid checkperm slot
    Names-IsOpen e (inl a) = absurd (ground (arith, a.0))
    Names-IsOpen e (inr a) = subst (IsOpen k c envid checkperm) a.1 a.2

    resolve_stale :
        (is_free (status_of k slot) || not ((k.envs slot).env_id == envid)) ≡ true
        → ¬ IsOpen k c envid checkperm slot
        → Resolves k c envid checkperm
    resolve_stale t nobody =
        refused (unfold envid2env in rw nonzero (rw t refl)) (λ e n. nobody (Names-IsOpen e n))

    module _ (free : is_free (status_of k slot) ≡ false)
        (same : ((k.envs slot).env_id == envid) ≡ true)
        (alive : status_of k slot ≢ EnvStatus.free) where
      resolve_open :
          (checkperm && not (is_current k slot)) ≡ false
          → ((checkperm ≡ false) ⊎ ((slot ≡ c) ⊎ ((k.envs slot).env_parent_id ≡ (k.envs c).env_id)))
          → Resolves k c envid checkperm
      resolve_open t may =
          accepted slot (unfold envid2env in rw nonzero (rw free (rw same (rw t refl))))
            (inr (ground arith, refl, (alive, ground arith, may)))

      resolve_child :
          (checkperm && not (is_current k slot)) ≡ true
          → checkperm ≡ true
          → slot ≢ c
          → Resolves k c envid checkperm
      resolve_child t on other =
          elim (Bool-cases ((k.envs slot).env_parent_id == (k.envs c).env_id)) [
            | inl p ↦
                accepted slot
                  (unfold envid2env in rw nonzero (rw free (rw same (rw t (rw cur (rw p refl))))))
                  (inr (ground arith, refl, (alive, ground arith, inr (inr (ground arith)))))
            | inr p ↦
                refused
                  (unfold envid2env in rw nonzero (rw free (rw same (rw t (rw cur (rw p refl))))))
                  (λ e n. not_child p (Names-IsOpen e n).2)
          ]
        where
          not_child :
              ((k.envs slot).env_parent_id == (k.envs c).env_id) ≡ false
              → ¬ (
                  (checkperm ≡ false)
                  ⊎ ((slot ≡ c) ⊎ ((k.envs slot).env_parent_id ≡ (k.envs c).env_id)))
          not_child p (inl q) = absurd (ground (arith, sym on ∙ q))
          not_child p (inr (inl q)) = other q
          not_child p (inr (inr q)) = absurd (ground (arith, p, q))

      resolve_alive : Resolves k c envid checkperm
      resolve_alive = elim (Bool-cases checkperm) [
        | inr off ↦ resolve_open (rw off refl) (inl off)
        | inl on ↦ elim (Bool-cases (c == slot)) [
          | inl q ↦ resolve_open (rw on (rw cur (rw q refl))) (inr (inl (ground (arith, q))))
          | inr q ↦ resolve_child (rw on (rw cur (rw q refl))) on (ground (arith, q))
        ]
      ]

    resolve_slot : Resolves k c envid checkperm
    resolve_slot = elim (free_cases (status_of k slot)) [
      | inl (f, q) ↦ resolve_stale (rw f refl) (λ o. o.0 q)
      | inr (f, alive) ↦ elim (Bool-cases ((k.envs slot).env_id == envid)) [
        | inl same ↦ resolve_alive f same alive
        | inr other ↦
            resolve_stale (rw f (rw other refl)) (λ o. absurd (ground (arith, other, o.1)))
      ]
    ]

-- `envid2env` with a current environment answers without a null pointer, and stores an environment
-- exactly when the identifier names it.
pub envid2env-Resolves :
    (k : Kernel) (c envid : ℕ) (checkperm : Bool) → k.curenv ≡ some c → Resolves k c envid checkperm
envid2env-Resolves k c envid checkperm cur = elim (Bool-cases (envid == 0)) [
  | inl z ↦ resolve_current k c envid checkperm cur (ground arith)
  | inr z ↦ resolve_slot k c envid checkperm cur z
]

module _ (k : Kernel) (envid : ℕ) where
  -- Without `checkperm`, a living environment with this identifier is found.
  pub envid2env-alive :
      envid ≢ 0
      → status_of k (envx envid) ≢ EnvStatus.free
      → (k.envs (envx envid)).env_id ≡ envid
      → envid2env envid false k ≡ some (Lookup.store (some (envx envid)))
  envid2env-alive n alive same = elim (free_cases (status_of k (envx envid))) [
    | inl (f, q) ↦ absurd (alive q)
    | inr (f, q) ↦
        let z : (envid == 0) ≡ false = ground arith in
        let t : ((k.envs (envx envid)).env_id == envid) ≡ true = ground (arith, same) in
        unfold envid2env in rw z (rw f (rw t refl))
  ]

  -- Without `checkperm` no pointer is read that may be null.
  pub envid2env-answers : (l : Lookup) × (envid2env envid false k ≡ some l)
  envid2env-answers = elim (Bool-cases (envid == 0)) [
    | inl z ↦ (Lookup.store k.curenv, unfold envid2env in rw z refl)
    | inr z ↦
        elim (Bool-cases
          (is_free (status_of k (envx envid)) || not ((k.envs (envx envid)).env_id == envid))) [
            | inl t ↦ (Lookup.bad_env, unfold envid2env in rw z (rw t refl))
            | inr t ↦ (Lookup.store (some (envx envid)), unfold envid2env in rw z (rw t refl))
          ]
  ]
