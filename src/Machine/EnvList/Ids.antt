-- ===== src/Machine/EnvList/Ids.antt =====
-- The identifiers that `env_alloc` gives out.
use tps_sistemas_operativos.Prelude.{
  ℕ, ◌+◌, ◌-◌, ◌*◌, ◌/◌, ◌%◌, ◌^◌, ◌≤◌, ◌<◌, ◌≡◌, ◌≢◌, refl, ◌∙◌, true, false, ◌==◌, ◌||◌, ltb,
  if◌then◌else◌, arith, Bool-cases, inl, inr,
}
use tps_sistemas_operativos.Kernel.{nenv, envx, is_negative}
use tps_sistemas_operativos.Machine.{next_env_id}
use tps_sistemas_operativos.Machine.EnvList.{IsEnvId}

next_env_id-value :
    (e env_id : ℕ)
    → env_id < 2 ^ 31
    → next_env_id e env_id
      ≡ (if ltb (env_id + 4096) (2 ^ 31) then (env_id + 4096) / 1024 * 1024 + e else 4096 + e)
next_env_id-value e env_id h = elim (Bool-cases (ltb (env_id + 4096) (2 ^ 31))) [
  | inl t ↦
      let v : (env_id + 4096) % 2 ^ 32 - (env_id + 4096) % 2 ^ 32 % nenv
          ≡ (env_id + 4096) / 1024 * 1024 =
        omega arith in
      let u : (is_negative ((env_id + 4096) / 1024 * 1024) || (env_id + 4096) / 1024 * 1024 == 0)
          ≡ false =
        ground arith in
      unfold next_env_id in rw v (rw u (rw t refl))
  | inr t ↦
      let v : (env_id + 4096) % 2 ^ 32 - (env_id + 4096) % 2 ^ 32 % nenv
          ≡ (env_id + 4096) / 1024 * 1024 =
        omega arith in
      let u : (is_negative ((env_id + 4096) / 1024 * 1024) || (env_id + 4096) / 1024 * 1024 == 0)
          ≡ true =
        ground arith in
      unfold next_env_id in rw v (rw u (rw t refl))
]

-- The next identifier of a slot is positive, keeps the index, and is not the last one.
pub record Follows (e env_id next : ℕ) : Type 0 where
  pub at_least : 4096 ≤ next
  pub positive : next < 2 ^ 31
  pub index : envx next ≡ e
  pub other : next ≢ env_id

pub next_env_id-Follows :
    (e env_id : ℕ) → e < nenv → IsEnvId e env_id → Follows e env_id (next_env_id e env_id)
next_env_id-Follows e env_id h i =
    let small : env_id < 2 ^ 31 = small_id i in
    let v = next_env_id-value e env_id small in
    elim (Bool-cases (ltb (env_id + 4096) (2 ^ 31))) [
      | inl t ↦
          let n : next_env_id e env_id ≡ (env_id + 4096) / 1024 * 1024 + e = v ∙ rw t refl in
          let b : env_id + 4096 < 2 ^ 31 = ground arith in
          record {
            at_least = omega (arith, n);
            positive = omega (arith, n, h, b);
            index = omega (arith, n, h);
            other = λ q. absurd (omega (arith, n, q));
          }
      | inr t ↦
          let n : next_env_id e env_id ≡ 4096 + e = v ∙ rw t refl in
          record {
            at_least = omega (arith, n);
            positive = omega (arith, n, h);
            index = omega (arith, n, h);
            other = λ q. absurd (ground (arith, n, q, h));
          }
    ]
  where
    small_id : IsEnvId e env_id → env_id < 2 ^ 31
    small_id (inl z) = omega (arith, z)
    small_id (inr (l, s, x)) = s
