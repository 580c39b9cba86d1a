-- ===== src/Machine/Syscall/Ipc/Messages.antt =====
-- A message from one environment to another.
use tps_sistemas_operativos.Prelude.{
  ℕ, ◌%◌, ◌≤◌, ◌<◌, ◌≡◌, ◌≢◌, refl, sym, ap, ◌∙◌, subst, true, false, not, Option, none, some, leb,
  bind-some, arith, ==-refl, ==_of_ne,
}
use tps_sistemas_operativos.Kernel.{envx, EnvStatus, Env, Kernel, status_of, set_env}
use tps_sistemas_operativos.Memory.{utop, pgsize}
use tps_sistemas_operativos.Machine.{Machine, error, e_ipc_not_recv}
use tps_sistemas_operativos.Machine.Resolve.{envid2env-alive}
use tps_sistemas_operativos.Machine.Syscall.{Answer, set_kernel, with_env, not_user_page}
use tps_sistemas_operativos.Machine.Syscall.Ipc.{
  deliver, sys_ipc_try_send, sys_ipc_recv, set_ipc_perm,
}

-- What a message of `value` from the environment `c` leaves in the environment `e`.
pub record Received (k : Kernel) (c e value : ℕ) (k' : Kernel) : Type 0 where
  pub sent : (k'.envs e).env_ipc_value ≡ value
  pub from : (k'.envs e).env_ipc_from ≡ (k.envs c).env_id
  pub no_page : (k'.envs e).env_ipc_perm ≡ 0
  pub awake : status_of k' e ≡ EnvStatus.runnable
  pub done : (k'.envs e).env_ipc_recving ≡ false
  pub result : (k'.envs e).env_tf.tf_regs.reg_eax ≡ 0
  pub others : (f : ℕ) → f ≢ e → k'.envs f ≡ k.envs f
  pub current : k'.curenv ≡ k.curenv

-- An environment that waits for a message, as `sys_ipc_recv` leaves it.
pub record Waits (k : Kernel) (c dstva : ℕ) (k' : Kernel) : Type 0 where
  pub receiving : (k'.envs c).env_ipc_recving ≡ true
  pub place : (k'.envs c).env_ipc_dstva ≡ dstva
  pub asleep : status_of k' c ≡ EnvStatus.not_runnable
  pub same_id : (k'.envs c).env_id ≡ (k.envs c).env_id
  pub others : (f : ℕ) → f ≢ c → k'.envs f ≡ k.envs f

abbrev waiting : Env → ℕ → Env
waiting v dstva = record v {
  env_ipc_recving = true;
  env_ipc_dstva = dstva;
  env_status = EnvStatus.not_runnable;
}

abbrev hearing : Env → ℕ → ℕ → Env
hearing v sender value = record v {
  env_ipc_from = sender;
  env_ipc_recving = false;
  env_ipc_value = value;
  env_tf = record v.env_tf { tf_regs = record v.env_tf.tf_regs { reg_eax = 0 } };
  env_status = EnvStatus.runnable;
}

-- `sys_ipc_recv` with the address of a user page makes the caller wait for a message, and calls
-- the scheduler.
pub sys_ipc_recv-Waits :
    (m : Machine) (c dstva : ℕ)
    → m.kernel.curenv ≡ some c
    → dstva < utop
    → dstva % pgsize ≡ 0
    → (k : Kernel) × (sys_ipc_recv dstva m ≡ some (Answer.yields (set_kernel m k)))
      × Waits m.kernel c dstva k
sys_ipc_recv-Waits m c dstva cur user aligned =
    let t : not_user_page dstva ≡ false = ground arith in
    (
      set_env m.kernel c (waiting (m.kernel.envs c) dstva),
      unfold sys_ipc_recv in bind-some _ cur ∙ (rw t refl),
      record {
        receiving = ap (λ v. v.env_ipc_recving) (at_c c);
        place = ap (λ v. v.env_ipc_dstva) (at_c c);
        asleep = ap (λ v. v.env_status) (at_c c);
        same_id = ap (λ v. v.env_id) (at_c c);
        others = λ f n. rw (==_of_ne f c n) refl;
      },
    )
  where
    at_c :
        (e : ℕ)
        → (set_env m.kernel e (waiting (m.kernel.envs e) dstva)).envs e
          ≡ waiting (m.kernel.envs e) dstva
    at_c e = rw (==-refl e) refl

module _ (m : Machine) (c e value : ℕ) (cur : m.kernel.curenv ≡ some c) where
  abbrev told : Kernel
  told = set_env m.kernel e (hearing (m.kernel.envs e) (m.kernel.envs c).env_id value)

  told-at : told.envs e ≡ hearing (m.kernel.envs e) (m.kernel.envs c).env_id value
  told-at = rw (==-refl e) refl

  told-Received : (m.kernel.envs e).env_ipc_perm ≡ 0 → Received m.kernel c e value told
  told-Received z = record {
    sent = ap (λ v. v.env_ipc_value) told-at;
    from = ap (λ v. v.env_ipc_from) told-at;
    no_page = ap (λ v. v.env_ipc_perm) told-at ∙ z;
    awake = ap (λ v. v.env_status) told-at;
    done = ap (λ v. v.env_ipc_recving) told-at;
    result = ap (λ v. v.env_tf.tf_regs.reg_eax) told-at;
    others = λ f n. rw (==_of_ne f e n) refl;
    current = refl;
  }

  deliver-told : deliver e value m ≡ some (Answer.returns 0 (set_kernel m told))
  deliver-told = unfold deliver in bind-some _ cur

module _ (m : Machine) (envid : ℕ) (nonzero : envid ≢ 0)
    (alive : status_of m.kernel (envx envid) ≢ EnvStatus.free)
    (same : (m.kernel.envs (envx envid)).env_id ≡ envid) where
  with_env-alive : (f : ℕ → Option Answer) → with_env envid false m f ≡ f (envx envid)
  with_env-alive f =
      unfold with_env in bind-some _ (envid2env-alive m.kernel envid nonzero alive same)

  -- Without the flag nothing is sent.
  pub sys_ipc_try_send-refused :
      (value srcva perm : ℕ)
      → (m.kernel.envs (envx envid)).env_ipc_recving ≡ false
      → sys_ipc_try_send envid value srcva perm m ≡ some (Answer.returns (error e_ipc_not_recv) m)
  sys_ipc_try_send-refused value srcva perm off =
      unfold sys_ipc_try_send in
      with_env-alive _
      ∙ (let t : not (m.kernel.envs (envx envid)).env_ipc_recving ≡ true = ap not off in rw t refl)

  sys_ipc_try_send-Received :
      (c value srcva perm : ℕ)
      → m.kernel.curenv ≡ some c
      → envx envid ≢ c
      → utop ≤ srcva
      → (m.kernel.envs (envx envid)).env_ipc_recving ≡ true
      → (k : Kernel) × (sys_ipc_try_send envid value srcva perm m
          ≡ some (Answer.returns 0 (set_kernel m k)))
        × Received m.kernel c (envx envid) value k
  sys_ipc_try_send-Received c value srcva perm cur other high on = (
    told m0 c e value cur,
    sends,
    record {
      sent = r.sent;
      from = r.from ∙ ap (λ v. v.env_id) (unchanged c (λ q. other (sym q)));
      no_page = r.no_page;
      awake = r.awake;
      done = r.done;
      result = r.result;
      others = λ f n. r.others f n ∙ unchanged f n;
      current = r.current;
    },
  )
    where
      e : ℕ
      e = envx envid

      m0 : Machine
      m0 = set_ipc_perm e 0 m

      unchanged : (f : ℕ) → f ≢ e → m0.kernel.envs f ≡ m.kernel.envs f
      unchanged f n = rw (==_of_ne f e n) refl

      r : Received m0.kernel c e value (told m0 c e value cur)
      r = told-Received m0 c e value cur (rw (==-refl e) refl)

      sends :
          sys_ipc_try_send envid value srcva perm m
          ≡ some (Answer.returns 0 (set_kernel m (told m0 c e value cur)))
      sends =
          let t : not (m.kernel.envs (envx envid)).env_ipc_recving ≡ false = ap not on in
          let u : leb utop srcva ≡ true = ground arith in
          unfold sys_ipc_try_send in
          with_env-alive _ ∙ (rw t (rw u (deliver-told m0 c e value cur)))

-- A waiting environment hears what is sent to it. When `sys_ipc_recv` made `c` wait, and later,
-- with `c` still as it was left, another environment `s` sends a value to the identifier of `c`
-- without a page, the call returns 0; then `c` has the value and the identifier of the sender, no
-- page, and 0 as the result of its own call, it is runnable and waits no more, and no other
-- environment changed.
pub sys_ipc_recv-sys_ipc_try_send :
    (m m' later : Machine) (c s envid dstva value srcva perm : ℕ)
    → m.kernel.curenv ≡ some c
    → dstva < utop
    → dstva % pgsize ≡ 0
    → sys_ipc_recv dstva m ≡ some (Answer.yields m')
    → later.kernel.envs c ≡ m'.kernel.envs c
    → later.kernel.curenv ≡ some s
    → c ≢ s
    → (m.kernel.envs c).env_id ≡ envid
    → envid ≢ 0
    → envx envid ≡ c
    → utop ≤ srcva
    → (k : Kernel) × (sys_ipc_try_send envid value srcva perm later
        ≡ some (Answer.returns 0 (set_kernel later k)))
      × Received later.kernel s c value k
sys_ipc_recv-sys_ipc_try_send m m' later c s envid dstva value srcva perm cur user aligned waits
      kept sender other id nonzero index high =
    let (k0, recv, w) = sys_ipc_recv-Waits m c dstva cur user aligned in
    let same : m'.kernel ≡ k0 = yields_kernel m' k0 (sym waits ∙ recv) in
    let at_c : later.kernel.envs c ≡ k0.envs c = kept ∙ ap (λ x. x.envs c) same in
    let here : later.kernel.envs (envx envid) ≡ k0.envs c = ap later.kernel.envs index ∙ at_c in
    let (k, sends, r) =
      sys_ipc_try_send-Received later envid nonzero
        (λ q. absurd (ground (arith, sym w.asleep ∙ ap (λ v. v.env_status) (sym here) ∙ q)))
        (ap (λ v. v.env_id) here ∙ w.same_id ∙ id) s value srcva perm sender
        (λ q. other (sym index ∙ q)) high (ap (λ v. v.env_ipc_recving) here ∙ w.receiving) in
    (k, sends, subst (λ e. Received later.kernel s e value k) index r)
  where
    kernel_of : Option Answer → Kernel
    kernel_of none = m.kernel
    kernel_of (some (Answer.yields x)) = x.kernel
    kernel_of (some (Answer.returns n x)) = x.kernel

    yields_kernel :
        (a : Machine) (k0 : Kernel)
        → some (Answer.yields a) ≡ some (Answer.yields (set_kernel m k0))
        → a.kernel ≡ k0
    yields_kernel a k0 q = ap kernel_of q
