-- ===== src/Memory/Tables/Permissions.antt =====
-- What the permission test of `user_mem_check` asks of an entry.
use Prim.Native.Nat.{bit_and, bit_or}
use tps_sistemas_operativos.Prelude.{
  ℕ, zero, suc, ◌%◌, ◌≡◌, ◌≢◌, refl, true, false, ◌==◌, arith, Bool-cases, inl, inr, ◌⊎◌, ==-refl,
}
use tps_sistemas_operativos.Memory.{pte_p}
use tps_sistemas_operativos.Memory.Bits.{
  bit, HasBits, bit-bit_or, bit-le-one, bit-one, bit_and-HasBits, HasBits-bit_and, zero-bit_and,
  bit_or-odd,
}
use tps_sistemas_operativos.Memory.Tables.{allows}

-- The entry has the bit P and every bit of `perm`.
abbrev pub Grants : ℕ → ℕ → Type 0
Grants perm word = (bit 0 word ≡ 1) × HasBits word perm

module _ (perm word : ℕ) where
  bit_of_either : (i : ℕ) → (bit i perm ≡ 1) ⊎ (bit i pte_p ≡ 1) → bit i (bit_or perm pte_p) ≡ 1
  bit_of_either i (inl b) = omega (arith, bit-bit_or i perm pte_p, b, bit-le-one i pte_p)
  bit_of_either i (inr b) = omega (arith, bit-bit_or i perm pte_p, b, bit-le-one i perm)

  pub allows-Grants : allows perm word ≡ true → Grants perm word
  allows-Grants e = (h 0 (bit_of_either 0 (inr refl)), λ i b. h i (bit_of_either i (inl b)))
    where
      same :
          (bit_and word (bit_or perm pte_p) == bit_or perm pte_p) ≡ true
          → bit_and word (bit_or perm pte_p) ≡ bit_or perm pte_p
      same t = ground arith

      h : HasBits word (bit_or perm pte_p)
      h = bit_and-HasBits word (bit_or perm pte_p) (same (unfold allows in e))

  pub Grants-allows : Grants perm word → allows perm word ≡ true
  Grants-allows g = unfold allows in equal (HasBits-bit_and word (bit_or perm pte_p) h)
    where
      equal :
          bit_and word (bit_or perm pte_p) ≡ bit_or perm pte_p
          → (bit_and word (bit_or perm pte_p) == bit_or perm pte_p) ≡ true
      equal e = rw e (==-refl (bit_or perm pte_p))

      from_either : (i : ℕ) → (bit i perm ≡ 1) ⊎ (bit i pte_p ≡ 1) → bit i word ≡ 1
      from_either i (inl b) = g.1 i b
      from_either zero (inr b) = g.0
      from_either (suc i) (inr b) = absurd (omega (arith, bit-one i, b))

      h : HasBits word (bit_or perm pte_p)
      h i b = from_either i (elim (Bool-cases (bit i perm == 1)) [
        | inl t ↦ inl (ground arith)
        | inr t ↦ inr (
            omega
              (arith, bit-bit_or i perm pte_p, b, bit-le-one i pte_p, bit-le-one i perm, not_one t))
      ])
        where
          not_one : {x : ℕ} → (x == 1) ≡ false → x ≢ 1
          not_one t = ground arith

pub allows-zero : (perm : ℕ) → allows perm 0 ≡ false
allows-zero perm =
    unfold allows in
    rw (zero-bit_and (bit_or perm pte_p)) (differs (bit_or perm pte_p) (bit_or-odd perm pte_p refl))
  where
    differs : (x : ℕ) → x % 2 ≡ 1 → (0 == x) ≡ false
    differs x e = ground (arith, e)
