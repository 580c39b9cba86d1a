-- ===== src/Memory/Bits.antt =====
-- `|` and `&` on native numbers, digit by digit.
use Prim.Native.Nat.{bit_and, bit_and-bitwise, bit_or, digits, bit_or-bitwise}
use tps_sistemas_operativos.Prelude.{
  ℕ, zero, suc, ◌+◌, ◌*◌, ◌/◌, ◌%◌, ◌≤◌, ◌≡◌, refl, sym, ap, ap₂, ◌∙◌, max, min, ◌==◌, Bool-cases,
  inl, inr, arith,
}

-- the digits of `a` and `b` joined, with `n` digits of `a` at most
abbrev joined : ℕ → ℕ → ℕ → ℕ
joined n a b = digits (λ b. b) max n a b

joined_enough : (n m a b : ℕ) → a ≤ n → a ≤ m → joined n a b ≡ joined m a b
joined_enough zero zero a b h k = refl
joined_enough zero (suc m) zero b h k = refl
joined_enough (suc n) zero zero b h k = refl
joined_enough zero (suc m) (suc a) b h k = absurd (omega arith)
joined_enough (suc n) zero (suc a) b h k = absurd (omega arith)
joined_enough (suc n) (suc m) zero b h k = refl
joined_enough (suc n) (suc m) (suc a) b h k =
    omega (arith, joined_enough n m (suc a / 2) (b / 2) (omega arith) (omega arith))

pub zero-bit_or : (b : ℕ) → bit_or 0 b ≡ b
zero-bit_or b = bit_or-bitwise 0 b

-- The lowest digits are joined, and so are the others.
pub bit_or_digit : (a b : ℕ) → bit_or a b ≡ bit_or (a / 2) (b / 2) * 2 + max (a % 2) (b % 2)
bit_or_digit zero b = omega (arith, zero-bit_or b, zero-bit_or (b / 2))
bit_or_digit (suc a) b = omega (
  arith,
  bit_or-bitwise (suc a) b,
  bit_or-bitwise (suc a / 2) (b / 2),
  joined_enough a (suc a / 2) (suc a / 2) (b / 2) (omega arith) (omega arith),
)

pub bit_or-half : (a b : ℕ) → bit_or a b / 2 ≡ bit_or (a / 2) (b / 2)
bit_or-half a b = omega (arith, bit_or_digit a b)

bit_or-zero_below : (n a : ℕ) → a ≤ n → bit_or a 0 ≡ a
bit_or-zero_below n zero h = zero-bit_or 0
bit_or-zero_below zero (suc a) h = absurd (omega arith)
bit_or-zero_below (suc n) (suc a) h =
    omega (arith, bit_or_digit (suc a) 0, bit_or-zero_below n (suc a / 2) (omega arith))

pub bit_or-zero : (a : ℕ) → bit_or a 0 ≡ a
bit_or-zero a = bit_or-zero_below a a (omega arith)

-- Halving `k` times.
halved : ℕ → ℕ → ℕ
halved zero a = a
halved (suc k) a = halved k (a / 2)

bit_or-halved : (k a b : ℕ) → halved k (bit_or a b) ≡ bit_or (halved k a) (halved k b)
unfolding halved
bit_or-halved zero a b = refl
bit_or-halved (suc k) a b = ap (halved k) (bit_or-half a b) ∙ bit_or-halved k (a / 2) (b / 2)

halved_page : (a : ℕ) → halved 12 a ≡ a / 4096
unfolding halved
halved_page a = omega arith

-- The number of the page is joined on its own.
pub bit_or-pgnum : (a b : ℕ) → bit_or a b / 4096 ≡ bit_or (a / 4096) (b / 4096)
bit_or-pgnum a b =
    sym (halved_page (bit_or a b))
    ∙ (bit_or-halved 12 a b ∙ ap₂ bit_or (halved_page a) (halved_page b))

pub bit_or-odd : (a b : ℕ) → b % 2 ≡ 1 → bit_or a b % 2 ≡ 1
bit_or-odd a b h = omega (arith, bit_or_digit a b)

-- the digits that `a` and `b` share, with `n` digits of `a` at most
abbrev shared : ℕ → ℕ → ℕ → ℕ
shared n a b = digits (λ b. 0) min n a b

shared_enough : (n m a b : ℕ) → a ≤ n → a ≤ m → shared n a b ≡ shared m a b
shared_enough zero zero a b h k = refl
shared_enough zero (suc m) zero b h k = refl
shared_enough (suc n) zero zero b h k = refl
shared_enough zero (suc m) (suc a) b h k = absurd (omega arith)
shared_enough (suc n) zero (suc a) b h k = absurd (omega arith)
shared_enough (suc n) (suc m) zero b h k = refl
shared_enough (suc n) (suc m) (suc a) b h k =
    omega (arith, shared_enough n m (suc a / 2) (b / 2) (omega arith) (omega arith))

pub zero-bit_and : (b : ℕ) → bit_and 0 b ≡ 0
zero-bit_and b = bit_and-bitwise 0 b

bit_and_digit : (a b : ℕ) → bit_and a b ≡ bit_and (a / 2) (b / 2) * 2 + min (a % 2) (b % 2)
bit_and_digit zero b = omega (arith, zero-bit_and b, zero-bit_and (b / 2))
bit_and_digit (suc a) b = omega (
  arith,
  bit_and-bitwise (suc a) b,
  bit_and-bitwise (suc a / 2) (b / 2),
  shared_enough a (suc a / 2) (suc a / 2) (b / 2) (omega arith) (omega arith),
)

-- The bit of weight `2 ^ i`.
abbrev pub bit : ℕ → ℕ → ℕ
bit zero a = a % 2
bit (suc i) a = bit i (a / 2)

pub bit-le-one : (i a : ℕ) → bit i a ≤ 1
bit-le-one zero a = omega arith
bit-le-one (suc i) a = bit-le-one i (a / 2)

bit-nothing : (i : ℕ) → bit i 0 ≡ 0
bit-nothing zero = refl
bit-nothing (suc i) = bit-nothing i

pub bit-one : (i : ℕ) → bit (suc i) 1 ≡ 0
bit-one i = bit-nothing i

pub bit-bit_or : (i a b : ℕ) → bit i (bit_or a b) ≡ max (bit i a) (bit i b)
bit-bit_or zero a b = omega (arith, bit_or_digit a b)
bit-bit_or (suc i) a b = ap (bit i) (bit_or-half a b) ∙ bit-bit_or i (a / 2) (b / 2)

-- Every bit of `b` is one of `a`.
abbrev pub HasBits : ℕ → ℕ → Type 0
HasBits a b = (i : ℕ) → bit i b ≡ 1 → bit i a ≡ 1

pub bit_and-HasBits : (a b : ℕ) → bit_and a b ≡ b → HasBits a b
bit_and-HasBits a b e zero h = omega (arith, bit_and_digit a b, e, h)
bit_and-HasBits a b e (suc i) h =
    bit_and-HasBits (a / 2) (b / 2) (omega (arith, bit_and_digit a b, e)) i h

bit_and-zero_below : (n a : ℕ) → a ≤ n → bit_and a 0 ≡ 0
bit_and-zero_below n zero h = zero-bit_and 0
bit_and-zero_below zero (suc a) h = absurd (omega arith)
bit_and-zero_below (suc n) (suc a) h =
    omega (arith, bit_and_digit (suc a) 0, bit_and-zero_below n (suc a / 2) (omega arith))

HasBits-bit_and_below : (n a b : ℕ) → b ≤ n → HasBits a b → bit_and a b ≡ b
HasBits-bit_and_below n a zero h k = bit_and-zero_below a a (omega arith)
HasBits-bit_and_below zero a (suc b) h k = absurd (omega arith)
HasBits-bit_and_below (suc n) a (suc b) h k =
    let rest = HasBits-bit_and_below n (a / 2) (suc b / 2) (omega arith) (λ i e. k (suc i) e) in
    elim (Bool-cases (suc b % 2 == 1)) [
      | inl t ↦
          let odd : suc b % 2 ≡ 1 = ground arith in
          omega (arith, bit_and_digit a (suc b), rest, odd, k 0 odd)
      | inr t ↦
          let even : suc b % 2 ≡ 0 = ground arith in
          omega (arith, bit_and_digit a (suc b), rest, even)
    ]

pub HasBits-bit_and : (a b : ℕ) → HasBits a b → bit_and a b ≡ b
HasBits-bit_and a b k = HasBits-bit_and_below b a b (omega arith) k
