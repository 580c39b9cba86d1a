-- ===== src/Kernel/Sched/Pick.antt =====
-- The searches of sched/kern/sched.c: the best queue, and the first runnable entry of a queue.
use tps_sistemas_operativos.Prelude.{
  ℕ, zero, suc, ◌+◌, ◌%◌, ◌<◌, ◌≡◌, refl, List, [], ◌∷◌, true, false, Bool, Option, some, none,
  arith, if◌then◌else◌, ap, ◌∙◌, length, get_or, Bool-cases, inl, inr, ◌⊎◌,
}
use tps_sistemas_operativos.Kernel.{
  nenv, envx, is_runnable, MlfqQueue, Kernel, status_of, Outcome, returned,
}
use tps_sistemas_operativos.Kernel.Sched.{Level, queue, get_queue}
use tps_sistemas_operativos.Kernel.Sched.Yield.{
  has_runnable_envs, has_runnable, get_best_priority_queue, mlfq_loop, run_demoted,
}
use tps_sistemas_operativos.Kernel.Sched.Ring.{window, size, contents}
use tps_sistemas_operativos.Kernel.Sched.Levels.{number}

-- Is the environment in the slot of this identifier runnable?
abbrev pub ready : Kernel → ℕ → Bool
ready k id = is_runnable (status_of k (envx id))

abbrev pub shift : Option ℕ → Option ℕ
shift none = none
shift (some j) = some (suc j)

-- the offset of the first ready identifier
abbrev pub first_ready : Kernel → List ℕ → Option ℕ
first_ready k [] = none
first_ready k (x ∷ xs) = if ready k x then some 0 else shift (first_ready k xs)

-- The entry at offset `j` is ready, and none before it is.
pub record Picks (k : Kernel) (ids : List ℕ) (j : ℕ) : Type 0 where
  pub within : j < length ids
  pub is_ready : ready k (get_or ids j 0) ≡ true
  pub first : (i : ℕ) → i < j → ready k (get_or ids i 0) ≡ false

abbrev pub NoneReady : Kernel → List ℕ → Type 0
NoneReady k ids = (i : ℕ) → i < length ids → ready k (get_or ids i 0) ≡ false

abbrev pub FirstReady : Kernel → List ℕ → Option ℕ → Type 0
FirstReady k ids none = NoneReady k ids
FirstReady k ids (some j) = Picks k ids j

shift-FirstReady :
    (k : Kernel) (x : ℕ) (xs : List ℕ) (r : Option ℕ)
    → ready k x ≡ false
    → FirstReady k xs r
    → FirstReady k (x ∷ xs) (shift r)
shift-FirstReady k x xs none e h = elim [ zero ↦ λ p. e | suc i ↦ λ p. h i (omega arith) ]
shift-FirstReady k x xs (some j) e h = record {
  within = omega arith;
  is_ready = h.is_ready;
  first = elim [ zero ↦ λ p. e | suc i ↦ λ p. h.first i (omega arith) ];
}

pub first_ready-FirstReady : (k : Kernel) (ids : List ℕ) → FirstReady k ids (first_ready k ids)
first_ready-FirstReady k [] = λ i p. absurd (omega arith)
first_ready-FirstReady k (x ∷ xs) = elim (Bool-cases (ready k x)) [
  | inl e ↦
      rw e (record { within = omega arith; is_ready = e; first = λ i p. absurd (omega arith) })
  | inr e ↦ rw e (shift-FirstReady k x xs (first_ready k xs) e (first_ready-FirstReady k xs))
]

abbrev pub is_some {ℓ} : {A : Type ℓ} → Option A → Bool
is_some none = false
is_some (some a) = true

has_runnable_envs-first_ready :
    (n i : ℕ) (q : MlfqQueue) (k : Kernel)
    → has_runnable_envs n i q k ≡ is_some (first_ready k (window q.envs i n))
unfolding has_runnable_envs
has_runnable_envs-first_ready zero i q k = refl
has_runnable_envs-first_ready (suc n) i q k =
    ground (arith, has_runnable_envs-first_ready n (i + 1) q k)

pub has_runnable-first_ready :
    (k : Kernel) (l : Level)
    → has_runnable k l ≡ is_some (first_ready k (contents (queue k.sched l)))
has_runnable-first_ready k l =
    let q = queue k.sched l in has_runnable_envs-first_ready (size q) q.beginning q k

pub by_level {ℓ} :
    (P : Level → Type ℓ) → P Level.q0 → P Level.q1 → P Level.q2 → P Level.q3 → (m : Level) → P m
by_level P a b c d Level.q0 = a
by_level P a b c d Level.q1 = b
by_level P a b c d Level.q2 = c
by_level P a b c d Level.q3 = d

-- Either no queue has a ready entry, or the answer is the best queue that has one.
abbrev pub Answer : Kernel → Option (Level × ℕ) → Type 0
Answer k o =
    (((m : Level) → has_runnable k m ≡ false) × (o ≡ none))
    ⊎ ((l : Level) × (has_runnable k l ≡ true)
        × ((m : Level) → number m < number l → has_runnable k m ≡ false)
        × (o ≡ some (l, number l)))

pub get_best_priority_queue-Answer : (k : Kernel) → Answer k (get_best_priority_queue k)
unfolding get_best_priority_queue get_queue
get_best_priority_queue-Answer k = elim (Bool-cases (has_runnable k Level.q0)) [
  | inl a ↦ inr (Level.q0, a, λ m d. absurd (omega arith), ground arith)
  | inr a ↦ elim (Bool-cases (has_runnable k Level.q1)) [
    | inl b ↦ inr (Level.q1, b, above1 a, ground arith)
    | inr b ↦ elim (Bool-cases (has_runnable k Level.q2)) [
      | inl c ↦ inr (Level.q2, c, above2 a b, ground arith)
      | inr c ↦ elim (Bool-cases (has_runnable k Level.q3)) [
        | inl d ↦ inr (Level.q3, d, above3 a b c, ground arith)
        | inr d ↦ inl (by_level (λ m. has_runnable k m ≡ false) a b c d, ground arith)
      ]
    ]
  ]
]
  where
    above1 : has_runnable k Level.q0 ≡ false → (m : Level) → number m < 1 → has_runnable k m ≡ false
    above1 a =
        by_level (λ m. number m < 1 → has_runnable k m ≡ false) (λ d. a) (λ d. absurd (omega arith))
          (λ d. absurd (omega arith)) (λ d. absurd (omega arith))

    above2 :
        has_runnable k Level.q0 ≡ false
        → has_runnable k Level.q1 ≡ false
        → (m : Level) → number m < 2
        → has_runnable k m ≡ false
    above2 a b =
        by_level (λ m. number m < 2 → has_runnable k m ≡ false) (λ d. a) (λ d. b)
          (λ d. absurd (omega arith)) (λ d. absurd (omega arith))

    above3 :
        has_runnable k Level.q0 ≡ false
        → has_runnable k Level.q1 ≡ false
        → has_runnable k Level.q2 ≡ false
        → (m : Level) → number m < 3
        → has_runnable k m ≡ false
    above3 a b c =
        by_level (λ m. number m < 3 → has_runnable k m ≡ false) (λ d. a) (λ d. b) (λ d. c)
          (λ d. absurd (omega arith))

abbrev pub after : ℕ → Level → ℕ → Kernel → Option ℕ → Option Outcome
after i l queue_number k none = some (returned k)
after i l queue_number k (some j) = run_demoted (i + j) l queue_number k

after-shift :
    (r : Option ℕ) (i : ℕ) (l : Level) (m : ℕ) (k : Kernel)
    → after (i + 1) l m k r ≡ after i l m k (shift r)
after-shift none i l m k = refl
after-shift (some j) i l m k = ap (λ a. run_demoted a l m k) (omega arith)

-- The loop of `priority_MLFQ` runs the first ready entry.
pub mlfq_loop-first_ready :
    (n i : ℕ) (l : Level) (queue_number : ℕ) (k : Kernel)
    → mlfq_loop n i l queue_number k
      ≡ after i l queue_number k (first_ready k (window (queue k.sched l).envs i n))
unfolding mlfq_loop
mlfq_loop-first_ready zero i l m k = refl
mlfq_loop-first_ready (suc n) i l m k =
    elim (Bool-cases (ready k ((queue k.sched l).envs (i % nenv)))) [
      | inl e ↦ rw (e, mlfq_loop) (ap (λ a. run_demoted a l m k) (omega arith))
      | inr e ↦
          rw (e, mlfq_loop)
            (mlfq_loop-first_ready n (i + 1) l m k
              ∙ after-shift (first_ready k (window (queue k.sched l).envs (i + 1) n)) i l m k)
    ]
