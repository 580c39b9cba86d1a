-- ===== src/Kernel/Sched/Boost.antt =====
-- `boost_envs`: every queued environment goes back to the first queue.
use mathlib.Core.List.{append_assoc, append-nil}
use tps_sistemas_operativos.Prelude.{
  ℕ, zero, suc, ◌+◌, ◌%◌, ◌≤◌, ◌<◌, ◌≡◌, ◌≢◌, refl, sym, List, [], ◌∷◌, ◌++◌, false, Bool, Option,
  some, ◌>>=◌, subst, ◌==◌, ◌||◌, arith, if◌then◌else◌, ap, ap₂, ◌∙◌, length, length-append,
}
use tps_sistemas_operativos.Kernel.{nenv, envx, MlfqQueue, MlfqSched, Kernel}
use tps_sistemas_operativos.Kernel.Sched.{
  Level, queue, sched_push_env, boost_loop, boost_queue, clean_queues, boost_envs,
}
use tps_sistemas_operativos.Kernel.Sched.Ring.{window, size, contents, IsValid, length-window}
use tps_sistemas_operativos.Kernel.Sched.Levels.{Pushed, sched_push_env-Pushed}

-- Does one of the identifiers name the slot `e` of `envs`?
abbrev pub names_slot : ℕ → List ℕ → Bool
names_slot e [] = false
names_slot e (x ∷ xs) = (e == envx x) || names_slot e xs

-- `ids` are moved to the end of the first queue, and the environments that they name are marked 0.
pub record Boosted (k : Kernel) (ids : List ℕ) (k' : Kernel) : Type 0 where
  pub appended : contents k'.sched.q0 ≡ contents k.sched.q0 ++ ids
  pub valid : IsValid k'.sched.q0
  pub others : (m : Level) → m ≢ Level.q0 → queue k'.sched m ≡ queue k.sched m
  pub total : k'.sched.total_executions ≡ k.sched.total_executions
  pub marked :
      (e : ℕ)
      → k'.envs e ≡ (if names_slot e ids then record (k.envs e) { current_queue = 0 } else k.envs e)
  pub current : k'.curenv ≡ k.curenv

Boosted-refl : (k : Kernel) → IsValid k.sched.q0 → Boosted k [] k
Boosted-refl k v = record {
  appended = sym (append-nil _);
  valid = v;
  others = λ m h. refl;
  total = refl;
  marked = λ e. refl;
  current = refl;
}

names_slot-append :
    (e : ℕ) (xs ys : List ℕ) → names_slot e (xs ++ ys) ≡ (names_slot e xs || names_slot e ys)
names_slot-append e [] ys = refl
names_slot-append e (x ∷ xs) ys = ground (arith, names_slot-append e xs ys)

module _ {k k1 k2 : Kernel} {xs ys : List ℕ} where
  Boosted-trans : Boosted k xs k1 → Boosted k1 ys k2 → Boosted k (xs ++ ys) k2
  Boosted-trans a b = record {
    appended = b.appended ∙ ap (λ l. l ++ ys) a.appended ∙ append_assoc _ xs ys;
    valid = b.valid;
    others = λ m h. b.others m h ∙ a.others m h;
    total = b.total ∙ a.total;
    marked = λ e. ground (arith, a.marked e, b.marked e, names_slot-append e xs ys);
    current = b.current ∙ a.current;
  }

Pushed-Boosted : {k k' : Kernel} {id : ℕ} → Pushed k id 0 Level.q0 k' → Boosted k (id ∷ []) k'
Pushed-Boosted {k} {k'} {id} p = record {
  appended = p.appended;
  valid = p.valid;
  others = p.others;
  total = p.total;
  marked = λ e. ground (arith, p.marked e);
  current = p.current;
}

size-appended :
    {k k' : Kernel} {ids : List ℕ}
    → Boosted k ids k'
    → size k'.sched.q0 ≡ size k.sched.q0 + length ids
size-appended {k} {k'} {ids} b = omega (
  arith,
  ap length b.appended,
  length-append (contents k.sched.q0) ids,
  length-window k.sched.q0.envs k.sched.q0.beginning (size k.sched.q0),
  length-window k'.sched.q0.envs k'.sched.q0.beginning (size k'.sched.q0),
)

-- A chain of calls that does not fail and moves `ids`.
abbrev pub Boosts : Kernel → List ℕ → Option Kernel → Type 0
Boosts k ids m = (k' : Kernel) × (m ≡ some k') × Boosted k ids k'

Boosts-bind :
    {k : Kernel} {xs ys : List ℕ} {m : Option Kernel} {f : Kernel → Option Kernel}
    → Boosts k xs m
    → ((k1 : Kernel) → Boosted k xs k1 → Boosts k1 ys (f k1))
    → Boosts k (xs ++ ys) (m >>= f)
Boosts-bind {k} {xs} {ys} {m} {f} (k1, e, b) next =
    subst (λ m. Boosts k (xs ++ ys) (m >>= f)) (sym e) (finish (next k1 b))
  where
    finish : Boosts k1 ys (f k1) → Boosts k (xs ++ ys) (f k1)
    finish (k2, e2, b2) = (k2, e2, Boosted-trans b b2)

push-Boosts :
    (k : Kernel) (id : ℕ)
    → IsValid k.sched.q0
    → size k.sched.q0 < nenv
    → Boosts k (id ∷ []) (sched_push_env k id 0)
push-Boosts k id v room = finish (sched_push_env-Pushed k id Level.q0 v room)
  where
    finish :
        (k' : Kernel) × (sched_push_env k id 0 ≡ some k') × Pushed k id 0 Level.q0 k'
        → Boosts k (id ∷ []) (sched_push_env k id 0)
    finish (k', e, p) = (k', e, Pushed-Boosted p)

module _ (l : Level) (h : l ≢ Level.q0) (f : ℕ → ℕ) where
  boost_loop-Boosts :
      (n i : ℕ) (k : Kernel)
      → (queue k.sched l).envs ≡ f
      → IsValid k.sched.q0
      → size k.sched.q0 + n ≤ nenv
      → Boosts k (window f i n) (boost_loop n i l k)
  unfolding boost_loop
  boost_loop-Boosts zero i k e v room = (k, refl, Boosted-refl k v)
  boost_loop-Boosts (suc n) i k e v room = rw (ap (λ (g : ℕ → ℕ). g (i % nenv)) e) (
      Boosts-bind (push-Boosts k (f (i % nenv)) v (omega arith)) (λ k1 b.
        boost_loop-Boosts n (i + 1) k1 (ap (λ (q : MlfqQueue). q.envs) (b.others l h) ∙ e) b.valid
          (omega (arith, size-appended b))))

boost_queue-Boosts :
    (l : Level) (k : Kernel)
    → l ≢ Level.q0
    → IsValid k.sched.q0
    → size k.sched.q0 + size (queue k.sched l) ≤ nenv
    → Boosts k (contents (queue k.sched l)) (boost_queue l k)
unfolding boost_queue
boost_queue-Boosts l k h v room =
    let q = queue k.sched l in boost_loop-Boosts l h q.envs (size q) q.beginning k refl v room

-- To use a chain that succeeds.
Boosts-elim {ℓ} :
    {k : Kernel} {xs : List ℕ} {m : Option Kernel} {f : Kernel → Option Kernel}
    (Q : Option Kernel → Type ℓ)
    → Boosts k xs m
    → ((k1 : Kernel) → Boosted k xs k1 → Q (f k1))
    → Q (m >>= f)
Boosts-elim {f = f} Q (k1, e, b) next = subst (λ m. Q (m >>= f)) (sym e) (next k1 b)

-- the number of entries in all queues
abbrev pub queued : MlfqSched → ℕ
queued s = size s.q0 + size s.q1 + size s.q2 + size s.q3

-- Each queue is well formed, and the first one can hold all that is queued.
pub record HasRoom (s : MlfqSched) : Type 0 where
  pub valid0 : IsValid s.q0
  pub valid1 : IsValid s.q1
  pub valid2 : IsValid s.q2
  pub valid3 : IsValid s.q3
  pub room : queued s ≤ nenv

abbrev pub lower_queues : MlfqSched → List ℕ
lower_queues s = contents s.q1 ++ (contents s.q2 ++ contents s.q3)

-- All that was queued is in the first queue, in the order of the queues.
pub record AllFirst (k k' : Kernel) : Type 0 where
  pub first : contents k'.sched.q0 ≡ contents k.sched.q0 ++ lower_queues k.sched
  pub empty1 : contents k'.sched.q1 ≡ []
  pub empty2 : contents k'.sched.q2 ≡ []
  pub empty3 : contents k'.sched.q3 ≡ []
  pub has_room : HasRoom k'.sched
  pub total : k'.sched.total_executions ≡ k.sched.total_executions
  pub marked :
      (e : ℕ)
      → k'.envs e ≡ (
          if names_slot e (lower_queues k.sched)
          then record (k.envs e) { current_queue = 0 }
          else k.envs e)
  pub current : k'.curenv ≡ k.curenv

cleaned-AllFirst :
    (k k3 : Kernel)
    → HasRoom k.sched
    → Boosted k (lower_queues k.sched) k3
    → AllFirst k (record k3 { sched = clean_queues k3.sched })
unfolding clean_queues
cleaned-AllFirst k k3 h b = record {
  first = b.appended;
  empty1 = refl;
  empty2 = refl;
  empty3 = refl;
  has_room = record {
    valid0 = b.valid;
    valid1 = omega arith;
    valid2 = omega arith;
    valid3 = omega arith;
    room = let v = b.valid in omega arith;
  };
  total = b.total;
  marked = b.marked;
  current = b.current;
}

module _ {k k1 : Kernel} (l : Level) (b : Boosted k (contents (queue k.sched l)) k1) where
  size-moved : size k1.sched.q0 ≡ size k.sched.q0 + size (queue k.sched l)
  size-moved =
      let q = queue k.sched l in
      omega (arith, size-appended b, length-window q.envs q.beginning (size q))

  size-kept : (m : Level) → m ≢ Level.q0 → size (queue k1.sched m) ≡ size (queue k.sched m)
  size-kept m h = ap size (b.others m h)

-- `boost_envs` moves the three lower queues one after the other.
moves-AllFirst :
    (k k1 k2 k3 : Kernel)
    → HasRoom k.sched
    → Boosted k (contents k.sched.q1) k1
    → Boosted k1 (contents k1.sched.q2) k2
    → Boosted k2 (contents k2.sched.q3) k3
    → AllFirst k (record k3 { sched = clean_queues k3.sched })
moves-AllFirst k k1 k2 k3 h b1 b2 b3 = cleaned-AllFirst k k3 h (
    subst (λ ids. Boosted k ids k3)
      (ap₂ (λ xs ys. contents k.sched.q1 ++ (xs ++ ys)) (ap contents (b1.others Level.q2 (cc)))
        (ap contents (b2.others Level.q3 (cc) ∙ b1.others Level.q3 (cc))))
      (Boosted-trans b1 (Boosted-trans b2 b3)))

-- If the first queue can hold all that is queued, `boost_envs` succeeds: it appends the lower
-- queues to the first in their order, empties them, marks exactly the environments that it moved
-- with the first queue, and changes nothing else of any environment.
pub boost_envs-AllFirst :
    (k : Kernel) → HasRoom k.sched → (k' : Kernel) × (boost_envs k ≡ some k') × AllFirst k k'
unfolding boost_envs
boost_envs-AllFirst k h =
    Boosts-elim Goal (boost_queue-Boosts Level.q1 k (cc) h.valid0 (omega arith)) λ k1 b1.
      Boosts-elim Goal (boost_queue-Boosts Level.q2 k1 (cc) b1.valid (room2 k1 b1)) λ k2 b2.
        Boosts-elim Goal (boost_queue-Boosts Level.q3 k2 (cc) b2.valid (room3 k1 k2 b1 b2)) λ k3 b3.
          (record k3 { sched = clean_queues k3.sched }, refl, moves-AllFirst k k1 k2 k3 h b1 b2 b3)
  where
    Goal : Option Kernel → Type 0
    Goal m = (k' : Kernel) × (m ≡ some k') × AllFirst k k'

    room2 :
        (k1 : Kernel)
        → Boosted k (contents k.sched.q1) k1
        → size k1.sched.q0 + size k1.sched.q2 ≤ nenv
    room2 k1 b1 = omega (arith, size-moved Level.q1 b1, size-kept Level.q1 b1 Level.q2 (cc))

    room3 :
        (k1 k2 : Kernel)
        → Boosted k (contents k.sched.q1) k1
        → Boosted k1 (contents k1.sched.q2) k2
        → size k2.sched.q0 + size k2.sched.q3 ≤ nenv
    room3 k1 k2 b1 b2 = omega (
      arith,
      size-moved Level.q1 b1,
      size-kept Level.q1 b1 Level.q2 (cc),
      size-kept Level.q1 b1 Level.q3 (cc),
      size-moved Level.q2 b2,
      size-kept Level.q2 b2 Level.q3 (cc),
    )
