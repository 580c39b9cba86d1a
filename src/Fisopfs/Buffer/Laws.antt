-- ===== src/Fisopfs/Buffer/Laws.antt =====
-- Laws of blocks and of the strings in them.
use native.Mathlib.Decide.{ℕ_discrete}
use tps_sistemas_operativos.Prelude.{
  ℕ, suc, ◌+◌, ◌≤◌, ◌<◌, ◌≡◌, ◌≢◌, refl, sym, ap, ap₂, ◌∙◌, true, none, some, List, [], ◌∷◌, ◌++◌,
  leb, ◌>>=◌, arith, length, take, drop, length-append, length-drop, inl, inr, Option-cases,
  eq_of_some, subst,
}
use tps_sistemas_operativos.Fisopfs.Buffer.{str_eq, c_str, write_at}

pub str_eq_refl : (s : List ℕ) → str_eq s s ≡ true
str_eq_refl [] = refl
str_eq_refl (x ∷ xs) = ground (arith, str_eq_refl xs)

pub str_eq-eq : (s t : List ℕ) → str_eq s t ≡ true → s ≡ t
str_eq-eq [] [] h = refl
str_eq-eq [] (y ∷ ys) h = cc
str_eq-eq (x ∷ xs) [] h = cc
str_eq-eq (x ∷ xs) (y ∷ ys) h = ground (arith, str_eq-eq xs ys)

-- A string holds no terminator.
abbrev pub NoZero : List ℕ → Type 0
NoZero [] = Unit
NoZero (b ∷ bs) = (b ≢ 0) × NoZero bs

pub NoZero-append : (xs ys : List ℕ) → NoZero xs → NoZero ys → NoZero (xs ++ ys)
NoZero-append [] ys h k = k
NoZero-append (x ∷ xs) ys h k = (h.0, NoZero-append xs ys h.1 k)

pub c_str-append : (s pad : List ℕ) → NoZero s → c_str (s ++ 0 ∷ pad) ≡ some s
unfolding c_str
c_str-append [] pad h = refl
c_str-append (x ∷ xs) pad h = ground (arith, c_str-append xs pad h.1)

c_str-zero : (b : ℕ) (bs : List ℕ) → b ≡ 0 → c_str (b ∷ bs) ≡ some []
unfolding c_str
c_str-zero b bs h = ground arith

c_str-cons : (b : ℕ) (bs : List ℕ) → b ≢ 0 → c_str (b ∷ bs) ≡ (c_str bs >>= λ s. some (b ∷ s))
unfolding c_str
c_str-cons b bs h = ground arith

abbrev pub Split : List ℕ → List ℕ → Type 0
Split block s = (pad : List ℕ) × (block ≡ s ++ 0 ∷ pad) × NoZero s

Split-cons : (b : ℕ) (bs t : List ℕ) → b ≢ 0 → Split bs t → Split (b ∷ bs) (b ∷ t)
Split-cons b bs t h (pad, e, nz) = (pad, ap (λ l. b ∷ l) e, (h, nz))

-- What a string in a block says of the block.
pub c_str-Split : (block s : List ℕ) → c_str block ≡ some s → Split block s
c_str-Split [] s h = cc (h, nothing)
  where
    nothing : c_str [] ≡ none
    nothing = unfold c_str in refl
c_str-Split (b ∷ bs) s h = elim (ℕ_discrete b 0) [
  | yes z ↦
      subst (Split (b ∷ bs)) (eq_of_some (sym (c_str-zero b bs z) ∙ h)) (bs, ap (λ x. x ∷ bs) z, tt)
  | no nz ↦ elim (Option-cases (c_str bs)) [
    | inl e ↦ cc (h, c_str-cons b bs nz, ap (λ o. o >>= λ (t : List ℕ). some (b ∷ t)) e)
    | inr (t, e) ↦
        subst (Split (b ∷ bs))
          (eq_of_some
            (sym (c_str-cons b bs nz ∙ ap (λ o. o >>= λ (t : List ℕ). some (b ∷ t)) e) ∙ h))
          (Split-cons b bs t nz (c_str-Split bs t e))
  ]
]

module _ {ℓ} {A : Type ℓ} where
  pub take-append : (xs ys : List A) → take (length xs) (xs ++ ys) ≡ xs
  take-append [] ys = refl
  take-append (x ∷ xs) ys = ap (λ l. x ∷ l) (take-append xs ys)

  pub drop-append : (xs ys : List A) → drop (length xs) (xs ++ ys) ≡ ys
  drop-append [] ys = refl
  drop-append (x ∷ xs) ys = drop-append xs ys

shifted : (m n : ℕ) → suc m + n ≡ suc (m + n)
shifted m n = omega arith

pub drop-past : (xs ys : List ℕ) (n : ℕ) → drop (length xs + n) (xs ++ ys) ≡ drop n ys
drop-past [] ys n = ap (λ k. drop k ys) (omega arith)
drop-past (x ∷ xs) ys n =
    ap (λ k. drop k (x ∷ xs ++ ys)) (shifted (length xs) n) ∙ drop-past xs ys n

-- Writing at the end of the string of a block.
pub write_at-end :
    (s pad bytes : List ℕ)
    → length bytes ≤ length pad + 1
    → (rest : List ℕ) × (write_at (s ++ 0 ∷ pad) (length s) bytes ≡ some (s ++ (bytes ++ rest)))
      × (length rest + length bytes ≡ length pad + 1)
unfolding write_at
write_at-end s pad bytes h = (
  drop (length bytes) (0 ∷ pad),
  rw (room) (
      ap some (
        ap₂ ◌++◌ (take-append s (0 ∷ pad))
          (ap (λ l. bytes ++ l) (drop-past s (0 ∷ pad) (length bytes))))),
  omega (arith, length-drop {0} (length bytes) (0 ∷ pad)),
)
  where
    room : leb (length s + length bytes) (length (s ++ 0 ∷ pad)) ≡ true
    room = ground (arith, length-append s (0 ∷ pad))

-- Past the end of a block nothing can be written.
pub write_at-none :
    (block bytes : List ℕ) (offset : ℕ)
    → length block < offset + length bytes
    → write_at block offset bytes ≡ none
unfolding write_at
write_at-none block bytes offset h = ground arith
