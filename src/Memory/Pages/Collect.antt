-- ===== src/Memory/Pages/Collect.antt =====
-- Which pages `page_decref` and the operations over it give back to the free ones.
use tps_sistemas_operativos.Prelude.{
  ℕ, ◌+◌, ◌≤◌, ◌≡◌, ◌≢◌, ◌∙◌, refl, ap, Bool, false, List, [], ◌∷◌, ◌==◌, ◌&&◌, ◌||◌, ltb,
  if◌then◌else◌, arith, Bool-cases, inl, inr, ==-refl,
}

-- Is the page in the list?
abbrev pub is_in : ℕ → List ℕ → Bool
is_in p [] = false
is_in p (x ∷ xs) = (p == x) || is_in p xs

-- On the way from the counts `r` and the free pages `xs` to `r'` and `ys`, no page gains a
-- reference, and the free pages are those that were free and those that lost their last reference.
pub record Collects (r : ℕ → ℕ) (xs : List ℕ) (r' : ℕ → ℕ) (ys : List ℕ) : Type 0 where
  pub fewer : (p : ℕ) → r' p ≤ r p
  pub free_pages : (p : ℕ) → is_in p ys ≡ (is_in p xs || (ltb 0 (r p) && (r' p == 0)))

pub Collects-same : (r : ℕ → ℕ) (xs : List ℕ) → Collects r xs r xs
Collects-same r xs = record { fewer = λ p. omega arith; free_pages = λ p. ground arith }

pub Collects-kept :
    (r r' : ℕ → ℕ) (xs ys : List ℕ) → ((p : ℕ) → r' p ≡ r p) → ys ≡ xs → Collects r xs r' ys
Collects-kept r r' xs ys same e = record {
  fewer = λ p. omega (arith, same p);
  free_pages = λ p. let l : is_in p ys ≡ is_in p xs = ap (is_in p) e in ground (arith, l, same p);
}

pub Collects-then :
    {r s t : ℕ → ℕ} {xs ys zs : List ℕ}
    → Collects r xs s ys
    → Collects s ys t zs
    → Collects r xs t zs
Collects-then {r} {s} {t} {xs} {ys} {zs} f g = record {
  fewer = λ p. omega (arith, f.fewer p, g.fewer p);
  free_pages = λ p. ground (arith, f.fewer p, g.fewer p, f.free_pages p, g.free_pages p);
}

-- One page loses one reference, and becomes free when it was the last one.
pub Collects-one :
    (r r' : ℕ → ℕ) (xs ys : List ℕ) (q : ℕ)
    → r' q + 1 ≡ r q
    → ((p : ℕ) → p ≢ q → r' p ≡ r p)
    → ys ≡ (if r q == 1 then q ∷ xs else xs)
    → Collects r xs r' ys
Collects-one r r' xs ys q one others e = record { fewer = fewer; free_pages = pages }
  where
    fewer : (p : ℕ) → r' p ≤ r p
    fewer p = elim (Bool-cases (p == q)) [
      | inl t ↦ let u : p ≡ q = ground arith in rw u (omega (arith, one))
      | inr t ↦ omega (arith, others p (ground arith))
    ]

    at : (p : ℕ) → is_in p ys ≡ (if r q == 1 then (p == q) || is_in p xs else is_in p xs)
    at p = elim (Bool-cases (r q == 1)) [
      | inl t ↦ let s : ys ≡ (q ∷ xs) = e ∙ rw t refl in rw t (ap (is_in p) s)
      | inr t ↦ let s : ys ≡ xs = e ∙ rw t refl in rw t (ap (is_in p) s)
    ]

    pages : (p : ℕ) → is_in p ys ≡ (is_in p xs || (ltb 0 (r p) && (r' p == 0)))
    pages p = elim (Bool-cases (p == q)) [
      | inl t ↦ let u : p ≡ q = ground arith in rw u (here)
      | inr t ↦ elsewhere p (ground arith)
    ]
      where
        here : is_in q ys ≡ (is_in q xs || (ltb 0 (r q) && (r' q == 0)))
        here = ground (arith, at q, one, ==-refl q)

        elsewhere : (p : ℕ) → p ≢ q → is_in p ys ≡ (is_in p xs || (ltb 0 (r p) && (r' p == 0)))
        elsewhere p n = ground (arith, at p, others p n)
