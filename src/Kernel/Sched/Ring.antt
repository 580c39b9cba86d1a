-- ===== src/Kernel/Sched/Ring.antt =====
-- The queues of sched/kern/sched.c as sequences of identifiers, and what their two operations do
-- to the sequence.
use mathlib.Core.List.{Perm}
use mathlib.Core.List.Perm
use tps_sistemas_operativos.Prelude.{
  ℕ, zero, suc, ◌+◌, ◌-◌, ◌%◌, ◌≤◌, ◌<◌, ◌≡◌, refl, ap, ap₂, ◌∙◌, ◌≢◌, List, [], ◌∷◌, ◌++◌, update,
  ◌==◌, inl, inr, Bool-cases, arith, length, get_or, set, ==_of_ne,
}
use tps_sistemas_operativos.Kernel.{nenv, MlfqQueue}
use tps_sistemas_operativos.Kernel.Sched.{enqueue, sched_remove_env}

-- the `n` entries from index `b` on, going round at `nenv`
abbrev pub window : (ℕ → ℕ) → ℕ → ℕ → List ℕ
window f b zero = []
window f b (suc n) = f (b % nenv) ∷ window f (b + 1) n

abbrev pub size : MlfqQueue → ℕ
size q = q.last - q.beginning

abbrev pub contents : MlfqQueue → List ℕ
contents q = window q.envs q.beginning (size q)

pub record IsValid (q : MlfqQueue) : Type 0 where
  pub ordered : q.beginning ≤ q.last
  pub fits : q.last ≤ q.beginning + nenv

pub length-window : (f : ℕ → ℕ) (b n : ℕ) → length (window f b n) ≡ n
length-window f b zero = refl
length-window f b (suc n) = ap suc (length-window f (b + 1) n)

-- Entries outside a window do not show in it.
pub window-update_ne :
    (f : ℕ → ℕ) (b n i v : ℕ)
    → ((j : ℕ) → j < n → (b + j) % nenv ≢ i)
    → window (update f i v) b n ≡ window f b n
window-update_ne f b zero i v h = refl
window-update_ne f b (suc n) i v h =
    ap₂ ◌∷◌ (ground (arith, h 0))
      (window-update_ne f (b + 1) n i v (λ j p e. h (j + 1) (omega arith) (omega arith)))

-- Writing just past a window that leaves room extends it by the value.
pub window-update_end :
    (f : ℕ → ℕ) (b n i v : ℕ)
    → n < nenv
    → i ≡ (b + n) % nenv
    → window (update f i v) b (suc n) ≡ window f b n ++ v ∷ []
window-update_end f b zero i v h e = ap (λ k. k ∷ []) (ground arith)
window-update_end f b (suc n) i v h e =
    ap₂ ◌∷◌ (ground arith) (window-update_end f (b + 1) n i v (omega arith) (omega arith))

-- Writing at offset `k` of a window sets that entry.
pub window-update_at :
    (f : ℕ → ℕ) (b n k i v : ℕ)
    → n ≤ nenv
    → k < n
    → i ≡ (b + k) % nenv
    → window (update f i v) b n ≡ set (window f b n) k v
window-update_at f b zero k i v h hk e = absurd (omega arith)
window-update_at f b (suc n) zero i v h hk e =
    ap₂ ◌∷◌ (ground arith) (window-update_ne f (b + 1) n i v (λ j p. omega arith))
window-update_at f b (suc n) (suc k) i v h hk e =
    ap₂ ◌∷◌ (ground arith)
      (window-update_at f (b + 1) n k i v (omega arith) (omega arith) (omega arith))

pub get_or-window : (f : ℕ → ℕ) (b n k : ℕ) → k < n → get_or (window f b n) k 0 ≡ f ((b + k) % nenv)
get_or-window f b zero k h = absurd (omega arith)
get_or-window f b (suc n) zero h = ap f (omega arith)
get_or-window f b (suc n) (suc k) h = get_or-window f (b + 1) n k (omega arith) ∙ ap f (omega arith)

-- The first entry goes to the place of the entry that is taken out.
abbrev pub swap_out : List ℕ → ℕ → List ℕ
swap_out [] k = []
swap_out (x ∷ xs) zero = xs
swap_out (x ∷ xs) (suc k) = set xs k x

-- `size` of a queue with room, after one more entry
pub window-suc : (f : ℕ → ℕ) (b n m : ℕ) → m ≡ suc n → window f b m ≡ window f b (suc n)
window-suc f b n m e = ap (window f b) e

-- `sched_push_env` writes its entry at the end of the queue, if that has room.
pub contents-enqueue :
    (q : MlfqQueue) (v : ℕ)
    → IsValid q
    → size q < nenv
    → contents (enqueue q v) ≡ contents q ++ v ∷ []
unfolding enqueue
contents-enqueue q v h room =
    window-suc (enqueue q v).envs q.beginning (size q) (q.last + 1 - q.beginning) (omega arith)
    ∙ window-update_end q.envs q.beginning (size q) (q.last % nenv) v room (omega arith)

pub enqueue-IsValid : (q : MlfqQueue) (v : ℕ) → IsValid q → size q < nenv → IsValid (enqueue q v)
unfolding enqueue
enqueue-IsValid q v h room = omega arith

set-perm :
    (x : ℕ) (xs : List ℕ) (k : ℕ) → k < length xs → Perm (get_or xs k 0 ∷ set xs k x) (x ∷ xs)
set-perm x [] k h = absurd (omega arith)
set-perm x (y ∷ ys) zero h = Perm.swap x y ys
set-perm x (y ∷ ys) (suc k) h =
    Perm.trans (Perm.swap y (get_or ys k 0) (set ys k x))
      (Perm.trans (Perm.cons y (set-perm x ys k (omega arith))) (Perm.swap x y ys))

-- Only the entry that is taken out is lost.
pub swap_out-perm : (xs : List ℕ) (k : ℕ) → k < length xs → Perm (get_or xs k 0 ∷ swap_out xs k) xs
swap_out-perm [] k h = absurd (omega arith)
swap_out-perm (x ∷ xs) zero h = Perm.refl (x ∷ xs)
swap_out-perm (x ∷ xs) (suc k) h = set-perm x xs k (omega arith)

module _ (q : MlfqQueue) (h : IsValid q) where
  -- The entry at the front does not show in the rest of the queue.
  window-update_front :
      (f : ℕ → ℕ) (v : ℕ)
      → window (update f (q.beginning % nenv) v) (q.beginning + 1) (q.last - (q.beginning + 1))
        ≡ window f (q.beginning + 1) (q.last - (q.beginning + 1))
  window-update_front f v =
      window-update_ne f (q.beginning + 1) (q.last - (q.beginning + 1)) (q.beginning % nenv) v
        (λ j p. omega arith)

  contents-remove_first :
      0 < size q → contents (sched_remove_env q (q.beginning % nenv)) ≡ swap_out (contents q) 0
  unfolding sched_remove_env
  contents-remove_first p =
      rw (window-suc q.envs q.beginning (q.last - (q.beginning + 1)) (size q) (omega arith))
        (elim (Bool-cases (q.beginning % nenv == q.beginning)) [
          | inl e ↦ rw e refl
          | inr e ↦
              let front = q.envs (q.beginning % nenv) in
              rw e (
                window-update_front (update q.envs (q.beginning % nenv) front) front
                ∙ window-update_front q.envs front)
        ])

  contents-remove_later :
      (k : ℕ)
      → suc k < size q
      → contents (sched_remove_env q ((q.beginning + suc k) % nenv)) ≡ swap_out (contents q) (suc k)
  unfolding sched_remove_env
  contents-remove_later k p =
      let first = q.envs (q.beginning % nenv) in
      let position = (q.beginning + suc k) % nenv in
      let target = q.envs position in
      rw (window-suc q.envs q.beginning (q.last - (q.beginning + 1)) (size q) (omega arith)) (
        rw (==_of_ne position q.beginning (omega arith)) (
          window-update_at (update q.envs (q.beginning % nenv) target) (q.beginning + 1)
            (q.last - (q.beginning + 1)) k position first (omega arith) (omega arith) (omega arith)
          ∙ ap (λ w. set w k first) (window-update_front q.envs target)))

  -- `sched_remove_env` at the entry of offset `k` takes it out, and the first entry takes its place.
  pub contents-sched_remove_env :
      (k : ℕ)
      → k < size q
      → contents (sched_remove_env q ((q.beginning + k) % nenv)) ≡ swap_out (contents q) k
  contents-sched_remove_env zero p =
      ap (λ i. contents (sched_remove_env q i)) (omega arith) ∙ contents-remove_first p
  contents-sched_remove_env (suc k) p = contents-remove_later k p

  pub size-sched_remove_env : (i : ℕ) → 0 < size q → suc (size (sched_remove_env q i)) ≡ size q
  unfolding sched_remove_env
  size-sched_remove_env i p = ground arith

  pub sched_remove_env-IsValid : (i : ℕ) → 0 < size q → IsValid (sched_remove_env q i)
  unfolding sched_remove_env
  sched_remove_env-IsValid i p = ground arith
