-- ===== src/Machine/EnvList/Alloc.antt =====
-- What `env_alloc` does to the environments, the queues and the memory.
use tps_sistemas_operativos.Prelude.{
  ℕ, ◌<◌, ◌≡◌, ◌≢◌, refl, sym, ap, ap₂, ◌∙◌, subst, true, false, none, some, List, [], ◌∷◌, ◌++◌,
  ◌==◌, if◌then◌else◌, arith, Bool-cases, inl, inr, ==-refl, ==_of_ne,
}
use tps_sistemas_operativos.Kernel.{nenv, envx, EnvStatus, Kernel, status_of, set_env}
use tps_sistemas_operativos.Kernel.Sched.{Level, queue, sched_push_env}
use tps_sistemas_operativos.Kernel.Sched.Ring.{contents}
use tps_sistemas_operativos.Kernel.Sched.Levels.{number, Pushed, sched_push_env-Pushed}
use tps_sistemas_operativos.Memory.Pages.FreeList.{FreeList, page_alloc-first, page_alloc-empty}
use tps_sistemas_operativos.Machine.{
  Machine, Lookup, Allocated, envid2env, env_setup_vm, next_env_id, fresh_env, parent_queue,
  env_commit, alloc_from, env_alloc, e_no_mem, e_no_free_env,
}
use tps_sistemas_operativos.Machine.Resolve.{envid2env-alive, envid2env-answers}
use tps_sistemas_operativos.Machine.EnvList.Ids.{Follows, next_env_id-Follows}
use tps_sistemas_operativos.Machine.EnvList.Directory.{
  HasPage, new_memory, directory_word, fresh-IsSpace,
}
use tps_sistemas_operativos.Machine.EnvList.{AllEnvsFree-other, IsEnvId, EnvList}
use tps_sistemas_operativos.Machine.EnvList.Commit.{
  HasQueues, in_queue, Chain-same, some_injective, env_commit-pushed, Makes,
}

module _ {m : Machine} {e : ℕ} {es : List ℕ} {p : ℕ} {ps : List ℕ} (l : EnvList m (e ∷ es))
    (g : HasPage m p ps) (h : HasQueues m.kernel) (parent_id : ℕ) where
  abbrev with_page : Kernel
  with_page = set_env m.kernel e (record (m.kernel.envs e) { env_pgdir = some p })

  abbrev committed : Kernel
  committed = set_env with_page e (fresh_env e parent_id (with_page.envs e))

  page-at : with_page.envs e ≡ record (m.kernel.envs e) { env_pgdir = some p }
  page-at = rw (==-refl e) refl

  id_same : (with_page.envs e).env_id ≡ (m.kernel.envs e).env_id
  id_same = ap (λ v. v.env_id) page-at

  link_same : (with_page.envs e).env_link ≡ (m.kernel.envs e).env_link
  link_same = ap (λ v. v.env_link) page-at

  env_setup_vm-page :
      env_setup_vm e m ≡ some (true, record m { kernel = with_page; memory = new_memory m p })
  env_setup_vm-page = unfold env_setup_vm in rw (page_alloc-first m.memory p ps g.free) refl

  committed-at :
      (f : ℕ)
      → committed.envs f ≡ (
          if f == e
          then fresh_env e parent_id (record (m.kernel.envs e) { env_pgdir = some p })
          else m.kernel.envs f)
  committed-at f = elim (Bool-cases (f == e)) [
    | inl t ↦ rw t (rw (==-refl e) refl)
    | inr t ↦ rw t refl
  ]

  same_queue : (f : ℕ) → (committed.envs f).current_queue ≡ (m.kernel.envs f).current_queue
  same_queue f = elim (Bool-cases (f == e)) [
    | inl t ↦
        let q : f ≡ e = ground arith in
        ap (λ v. v.current_queue) (committed-at f) ∙ rw t (rw q refl)
    | inr t ↦ ap (λ v. v.current_queue) (committed-at f) ∙ rw t refl
  ]

  parent_level : (found : Lookup) → (n : Level) × (parent_queue committed found ≡ number n)
  parent_level Lookup.bad_env = (Level.q0, refl)
  parent_level (Lookup.store none) = (Level.q0, refl)
  parent_level (Lookup.store (some f)) = ((h.marked f).0, same_queue f ∙ (h.marked f).1)

  module _ (found : Lookup) (answers : envid2env parent_id false committed ≡ some found) (n : Level)
      (at_level : parent_queue committed found ≡ number n) (k : Kernel)
      (pushes : sched_push_env committed (next_env_id e (m.kernel.envs e).env_id) (number n)
        ≡ some k)
      (pushed : Pushed committed (next_env_id e (m.kernel.envs e).env_id) (number n) n k) where
    abbrev next : ℕ
    next = next_env_id e (m.kernel.envs e).env_id

    next-Follows : Follows e (m.kernel.envs e).env_id next
    next-Follows =
        next_env_id-Follows e (m.kernel.envs e).env_id l.all_free.0 (l.ids e l.all_free.0)

    abbrev made : Machine
    made = record m {
      kernel = k;
      env_free_list = (m.kernel.envs e).env_link;
      memory = new_memory m p;
    }

    made-at :
        (f : ℕ)
        → k.envs f ≡ (
            if f == e
            then record (fresh_env e parent_id (m.kernel.envs e)) {
              env_pgdir = some p;
              current_queue = number n;
            }
            else m.kernel.envs f)
    made-at f = elim (Bool-cases (f == e)) [
      | inl t ↦
          let u : (f == envx next) ≡ true = ap (λ x. f == x) next-Follows.index ∙ t in
          let v : committed.envs f
              ≡ fresh_env e parent_id (record (m.kernel.envs e) { env_pgdir = some p }) =
            committed-at f ∙ rw t refl in
          rw t (pushed.marked f ∙ rw u (ap (in_queue n) v))
      | inr t ↦
          let u : (f == envx next) ≡ false = ap (λ x. f == x) next-Follows.index ∙ t in
          rw t (pushed.marked f ∙ rw u (committed-at f ∙ rw t refl))
    ]

    commits :
        env_commit e parent_id (record m { kernel = with_page; memory = new_memory m p })
        ≡ some made
    commits =
        env_commit-pushed (record m { kernel = with_page; memory = new_memory m p }) e parent_id
          found k answers
          (ap₂ (λ i q. sched_push_env committed (next_env_id e i) q) id_same at_level ∙ pushes)
        ∙ ap (λ x. some (record m { kernel = k; env_free_list = x; memory = new_memory m p }))
            link_same

    env_alloc-made : env_alloc parent_id m ≡ some (Allocated.new_env e, made)
    env_alloc-made =
        unfold env_alloc in
        ap (λ first. alloc_from first parent_id m) l.chain.0
        ∙ (unfold alloc_from in rw env_setup_vm-page (rw commits refl))

    made-new : k.envs e ≡ record (fresh_env e parent_id (m.kernel.envs e)) {
      env_pgdir = some p;
      current_queue = number n;
    }
    made-new = made-at e ∙ rw (==-refl e) refl

    made-other : (f : ℕ) → f ≢ e → k.envs f ≡ m.kernel.envs f
    made-other f d = made-at f ∙ rw (==_of_ne f e d) refl

    made-link : (f : ℕ) → (k.envs f).env_link ≡ (m.kernel.envs f).env_link
    made-link f = elim (Bool-cases (f == e)) [
      | inl t ↦ let q : f ≡ e = ground arith in rw q (ap (λ v. v.env_link) made-new)
      | inr t ↦ ap (λ v. v.env_link) (made-other f (ground arith))
    ]

    made-IsEnvId : (f : ℕ) → f < nenv → IsEnvId f (k.envs f).env_id
    made-IsEnvId f b = elim (Bool-cases (f == e)) [
      | inl t ↦
          let q : f ≡ e = ground arith in
          let i : (k.envs f).env_id ≡ next =
            ap (λ x. (k.envs x).env_id) q ∙ ap (λ v. v.env_id) made-new in
          subst (IsEnvId f) (sym i)
            (inr (next-Follows.at_least, next-Follows.positive, next-Follows.index ∙ sym q))
      | inr t ↦
          subst (IsEnvId f) (sym (ap (λ v. v.env_id) (made-other f (ground arith)))) (l.ids f b)
    ]

    made-EnvList : EnvList made es
    made-EnvList = record {
      chain =
          Chain-same (λ f. (m.kernel.envs f).env_link) (λ f. (k.envs f).env_link)
            (m.kernel.envs e).env_link es made-link l.chain.1;
      distinct = l.distinct.1;
      all_free = AllEnvsFree-other m.kernel k e es made-other l.distinct.0 l.all_free.2;
      ids = made-IsEnvId;
    }

    made-inherits :
        (f : ℕ)
        → f ≢ e
        → parent_id ≢ 0
        → envx parent_id ≡ f
        → (m.kernel.envs f).env_id ≡ parent_id
        → status_of m.kernel f ≢ EnvStatus.free
        → number n ≡ (m.kernel.envs f).current_queue
    made-inherits f d z x i alive =
        let o : committed.envs (envx parent_id) ≡ m.kernel.envs (envx parent_id) =
          committed-at (envx parent_id)
          ∙ rw (==_of_ne (envx parent_id) e (λ q. d (sym x ∙ q))) refl in
        let at_f : committed.envs (envx parent_id) ≡ m.kernel.envs f = o ∙ ap m.kernel.envs x in
        let c =
          envid2env-alive committed parent_id z (λ q. alive (ap (λ v. v.env_status) (sym at_f) ∙ q))
            (ap (λ v. v.env_id) at_f ∙ i) in
        let same : found ≡ Lookup.store (some (envx parent_id)) =
          some_injective (sym answers ∙ c) in
        sym at_level ∙ ap (parent_queue committed) same ∙ ap (λ v. v.current_queue) at_f

    made_lem : Makes m e es p ps parent_id
    made_lem = record {
      after = made;
      makes = env_alloc-made;
      list_after = made-EnvList;
      env_id =
          subst (Follows e (m.kernel.envs e).env_id) (sym (ap (λ v. v.env_id) made-new))
            next-Follows;
      fields = (
        ap (λ v. v.env_status) made-new,
        ap (λ v. v.env_parent_id) made-new,
        ap (λ v. v.env_pgdir) made-new,
      );
      others = made-other;
      space = fresh-IsSpace g;
      kernel_part = directory_word g;
      other_pages = λ q d. rw (==_of_ne q p d) refl;
      level = n;
      queued =
          pushed.appended
          ∙ ap (λ i. contents (queue m.kernel.sched n) ++ i ∷ [])
              (sym (ap (λ v. v.env_id) made-new));
      other_queues = pushed.others;
      inherits = made-inherits;
    }

-- With a free environment, a free page, marks that name queues and room in the four queues,
-- `env_alloc` neither fails nor panics. It takes the first free slot, gives it a positive
-- identifier that differs from the slot's last one, and the status runnable; its directory is a
-- page of its own, which maps nothing below `UTOP` and above it what the kernel's directory maps,
-- apart from the entry for itself; its identifier comes last in one queue, the one of the living
-- environment that `parent_id` names. No other environment, queue or page changes.
pub env_alloc-Makes :
    {m : Machine} {e : ℕ} {es : List ℕ} {p : ℕ} {ps : List ℕ} (l : EnvList m (e ∷ es))
    (g : HasPage m p ps) (h : HasQueues m.kernel) (parent_id : ℕ)
    → Makes m e es p ps parent_id
env_alloc-Makes {m} {e} l g h parent_id =
    let (found, answers) = envid2env-answers (committed l g h parent_id) parent_id in
    let (n, at_level) = parent_level l g h parent_id found in
    let (k, pushes, pushed) =
      sched_push_env-Pushed (committed l g h parent_id) (next_env_id e (m.kernel.envs e).env_id) n
        (h.valid n) (h.room n) in
    made_lem l g h parent_id found answers n at_level k pushes pushed

-- Without a free environment `env_alloc` answers `-E_NO_FREE_ENV` and changes nothing.
env_alloc-no_env :
    (m : Machine) (parent_id : ℕ)
    → EnvList m []
    → env_alloc parent_id m ≡ some (Allocated.failed e_no_free_env, m)
env_alloc-no_env m parent_id l =
    unfold env_alloc in
    ap (λ first. alloc_from first parent_id m) l.chain ∙ (unfold alloc_from in refl)

-- Without a free page `env_alloc` answers `-E_NO_MEM` and changes nothing.
env_alloc-no_page :
    (m : Machine) (e : ℕ) (es : List ℕ) (parent_id : ℕ)
    → EnvList m (e ∷ es)
    → FreeList m.memory []
    → env_alloc parent_id m ≡ some (Allocated.failed e_no_mem, m)
env_alloc-no_page m e es parent_id l f =
    let vm : env_setup_vm e m ≡ some (false, m) =
      unfold env_setup_vm in rw (page_alloc-empty m.memory true f) refl in
    unfold env_alloc in
    ap (λ first. alloc_from first parent_id m) l.chain.0 ∙ (unfold alloc_from in rw vm refl)
