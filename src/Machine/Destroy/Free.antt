-- ===== src/Machine/Destroy/Free.antt =====
-- What `env_free` does to the memory and to the list of free environments.
use tps_sistemas_operativos.Prelude.{
  ℕ, zero, suc, ◌+◌, ◌-◌, ◌*◌, ◌/◌, ◌≤◌, ◌<◌, ◌≡◌, ◌≢◌, refl, sym, ap, ◌∙◌, subst, Bool, true,
  false, Option, none, some, List, [], ◌∷◌, ◌==◌, ltb, if◌then◌else◌, bind-some, update, arith,
  Bool-cases, inl, inr, ==-refl, ==_of_ne,
}
use tps_sistemas_operativos.Kernel.{nenv, EnvStatus, Env, Kernel, status_of, set_env}
use tps_sistemas_operativos.Memory.{Memory, kaddr, pgnum, has_p, set_word}
use tps_sistemas_operativos.Memory.Pages.{page_decref}
use tps_sistemas_operativos.Memory.Pages.FreeList.{NotIn, Chain, FreeList}
use tps_sistemas_operativos.Memory.Pages.Collect.{
  Collects, Collects-same, Collects-then, Collects-one,
}
use tps_sistemas_operativos.Memory.Tables.Space.{user_tables, user_pages, entry, table, IsSpace}
use tps_sistemas_operativos.Memory.Tables.Space.Counts.{with_counts, page_decref-held}
use tps_sistemas_operativos.Machine.{Machine}
use tps_sistemas_operativos.Machine.Destroy.{free_table, free_tables, env_free}
use tps_sistemas_operativos.Machine.Destroy.Flush.{
  AllPresent, AllPresent-flushed, mapped, Flushes, flush_table-Flushes, among,
}
use tps_sistemas_operativos.Machine.Destroy.Untable.{Untables, unpin, decref-Untables}
use tps_sistemas_operativos.Machine.EnvList.{
  AllEnvsFree, AllEnvsFree-other, Chain-elsewhere, IsEnvId, EnvList,
}
use tps_sistemas_operativos.Machine.EnvList.Directory.{count-none}

-- The state when `n` entries of the directory from `first` on are done.
pub record Clears (m : Memory) (pgdir : ℕ) (xs : List ℕ) (first n : ℕ) (after : Memory)
    : Type 0 where
  pub free_after : List ℕ
  pub pins_after : ℕ → ℕ
  pub space : IsSpace after pgdir free_after pins_after
  pub present : AllPresent after pgdir
  pub directory :
      (j : ℕ)
      → j < user_tables
      → after.words pgdir j ≡ (if among first n j then 0 else m.words pgdir j)
  pub collects : Collects m.pp_ref xs after.pp_ref free_after
  pub balanced : (p : ℕ) → after.pp_ref p + mapped m pgdir p ≡ m.pp_ref p + mapped after pgdir p

module _ {m : Memory} {pgdir : ℕ} {xs : List ℕ} {pins : ℕ → ℕ} (s : IsSpace m pgdir xs pins)
    (a : AllPresent m pgdir) (i : ℕ) (below : i < user_tables) where
  one_place : (j : ℕ) → among i 1 j ≡ (j == i)
  one_place j = ground arith

  Clears-absent : m.words pgdir i ≡ 0 → Clears m pgdir xs i 1 m
  Clears-absent z = record {
    free_after = xs;
    pins_after = pins;
    space = s;
    present = a;
    directory = λ j l. rw (one_place j) (elim (Bool-cases (j == i)) [
      | inl e ↦ let q : j ≡ i = ground arith in rw e (ap (m.words pgdir) q ∙ z)
      | inr e ↦ rw e refl
    ]);
    collects = Collects-same m.pp_ref xs;
    balanced = λ p. refl;
  }

  AllPresent-untabled :
      {mid after : Memory} {done : ℕ → Bool} (f : Flushes m pgdir xs pins done mid)
      (u : Untables mid pgdir f.free_after pins i after)
      → AllPresent after pgdir
  AllPresent-untabled {mid} {after} f u =
      let b = AllPresent-flushed f a in
      record {
        tables_present = λ j l n. elim (Bool-cases (j == i)) [
          | inl e ↦ absurd (n (u.directory j ∙ rw e refl))
          | inr e ↦
              let same : after.words pgdir j ≡ mid.words pgdir j = u.directory j ∙ rw e refl in
              ap has_p same ∙ b.tables_present j l (λ z. n (same ∙ z))
        ];
        pages_present =
            λ j l n. ap has_p (u.entries j l) ∙ b.pages_present j l (λ z. n (u.entries j l ∙ z));
      }

  free_table-Clears :
      m.words pgdir i ≢ 0
      → (after : Memory) × (free_table pgdir i m ≡ some after) × Clears m pgdir xs i 1 after
  free_table-Clears n =
      let (mid, flushes, f) = flush_table-Flushes 1024 0 i s a below (omega arith) n in
      let same : mid.words pgdir i ≡ m.words pgdir i = ap (λ w. w i) f.directory in
      let (after, dec, u) =
        decref-Untables f.space i below (λ z. n (sym same ∙ z))
          (λ j l q.
            let t : among (i * 1024 + 0) 1024 j ≡ true = ground (arith, q) in
            f.entries j l ∙ rw t refl) in
      let fits : kaddr m (pgnum (m.words pgdir i)) ≡ some (table m pgdir i) = in_memory in
      (
        after,
        (unfold free_table in
            bind-some _ fits
            ∙ (bind-some _ flushes
                ∙ (ap
                      (λ w.
                        page_decref (w / 4096)
                          (set_word mid (record { page = pgdir; index = i }) 0))
                      (sym same)
                    ∙ dec))),
        record {
          free_after = u.free_after;
          pins_after = unpin pins (table mid pgdir i);
          space = u.space;
          present = AllPresent-untabled f u;
          directory = λ j l.
              u.directory j
              ∙ rw (one_place j) (elim (Bool-cases (j == i)) [
                | inl e ↦ rw e refl
                | inr e ↦ rw e (ap (λ w. w j) f.directory)
              ]);
          collects = Collects-then f.collects u.collects;
          balanced = λ p. omega (arith, f.balanced p, u.balanced p);
        },
      )
    where
      in_memory : kaddr m (pgnum (m.words pgdir i)) ≡ some (table m pgdir i)
      in_memory =
          let t : ltb (table m pgdir i) m.npages ≡ true = ground (arith, s.table_below i below n) in
          rw t refl

  abbrev clear_entry : Option Memory
  clear_entry = if has_p (m.words pgdir i) then free_table pgdir i m else some m

  clear_entry-Clears : (after : Memory) × (clear_entry ≡ some after) × Clears m pgdir xs i 1 after
  clear_entry-Clears = elim (Bool-cases (has_p (m.words pgdir i))) [
    | inl t ↦
        let (after, frees, c) = free_table-Clears (λ z. absurd (ground (arith, t, z))) in
        (after, rw t frees, c)
    | inr t ↦ (m, rw t refl, Clears-absent (absent t))
  ]
    where
      absent : has_p (m.words pgdir i) ≡ false → m.words pgdir i ≡ 0
      absent t = elim (Bool-cases (m.words pgdir i == 0)) [
        | inl z ↦ ground arith
        | inr z ↦ absurd (ground (arith, sym t ∙ a.tables_present i below (ground arith)))
      ]

Clears-then :
    {m : Memory} {pgdir : ℕ} {xs : List ℕ} {first n : ℕ} {b c : Memory}
    (f : Clears m pgdir xs first 1 b)
    → Clears b pgdir f.free_after (first + 1) n c
    → Clears m pgdir xs first (suc n) c
Clears-then {m} {pgdir} {xs} {first} {n} f g = record {
  free_after = g.free_after;
  pins_after = g.pins_after;
  space = g.space;
  present = g.present;
  directory = λ j l. g.directory j l ∙ joined j (f.directory j l);
  collects = Collects-then f.collects g.collects;
  balanced = λ p. omega (arith, f.balanced p, g.balanced p);
}
  where
    joined :
        (j : ℕ) {w : ℕ}
        → w ≡ (if among first 1 j then 0 else m.words pgdir j)
        → (if among (first + 1) n j then 0 else w)
          ≡ (if among first (suc n) j then 0 else m.words pgdir j)
    joined j e = ground (arith, e)

-- The loops of `env_free` never panic and clear the directory.
pub free_tables-Clears :
    (n first : ℕ) {m : Memory} {pgdir : ℕ} {xs : List ℕ} {pins : ℕ → ℕ}
    (s : IsSpace m pgdir xs pins) (a : AllPresent m pgdir)
    → first + n ≤ user_tables
    → (after : Memory) × (free_tables n first pgdir m ≡ some after)
      × Clears m pgdir xs first n after
free_tables-Clears zero first {m} {pgdir} {xs} {pins} s a h = (
  m,
  unfold free_tables in refl,
  record {
    free_after = xs;
    pins_after = pins;
    space = s;
    present = a;
    directory = λ j l. let t : among first 0 j ≡ false = ground arith in rw t refl;
    collects = Collects-same m.pp_ref xs;
    balanced = λ p. refl;
  },
)
free_tables-Clears (suc n) first {m} {pgdir} {xs} s a h =
    let (m1, clears, f) = clear_entry-Clears s a first (omega arith) in
    let (m2, rest, g) = free_tables-Clears n (first + 1) f.space f.present (omega arith) in
    (m2, step m1 m2 clears rest, Clears-then f g)
  where
    step :
        (m1 m2 : Memory)
        → clear_entry s a first (omega arith) ≡ some m1
        → free_tables n (first + 1) pgdir m1 ≡ some m2
        → free_tables (suc n) first pgdir m ≡ some m2
    step m1 m2 c r = unfold free_tables in bind-some _ c ∙ r

-- What is left after the environment `e` with the directory `pgdir` was freed.
pub record Frees (m : Machine) (e pgdir : ℕ) (es xs : List ℕ) : Type 0 where
  pub after : Machine
  pub free_pages : List ℕ
  pub frees : env_free e m ≡ some after
  pub pages : FreeList after.memory free_pages
  pub collects : Collects m.memory.pp_ref xs after.memory.pp_ref free_pages
  pub refs :
      (p : ℕ)
      → after.memory.pp_ref p + (mapped m.memory pgdir p + (if p == pgdir then 1 else 0))
        ≡ m.memory.pp_ref p
  pub list_after : EnvList after (e ∷ es)
  pub no_directory : (after.kernel.envs e).env_pgdir ≡ none
  pub others : (f : ℕ) → f ≢ e → after.kernel.envs f ≡ m.kernel.envs f

NotIn-free :
    (k : Kernel) (e : ℕ) (es : List ℕ)
    → status_of k e ≢ EnvStatus.free
    → AllEnvsFree k es
    → NotIn e es
NotIn-free k e [] n a = tt
NotIn-free k e (f ∷ fs) n a = ((λ q. n (ap (status_of k) q ∙ a.1)), NotIn-free k e fs n a.2)

module _ {m : Memory} {pgdir : ℕ} {xs : List ℕ} {after : Memory}
    (c : Clears m pgdir xs 0 user_tables after) where
  no_directory_entry : (j : ℕ) → j < user_tables → after.words pgdir j ≡ 0
  no_directory_entry j l =
      let t : among 0 user_tables j ≡ true = ground arith in c.directory j l ∙ rw t refl

  no_page_entry : (j : ℕ) → j < user_pages → entry after pgdir j ≡ 0
  no_page_entry j l =
      let t : (after.words pgdir (j / 1024) == 0) ≡ true =
        ground (arith, no_directory_entry (j / 1024) (omega arith)) in
      rw t refl

  given_back : (p : ℕ) → after.pp_ref p + mapped m pgdir p ≡ m.pp_ref p
  given_back p = omega (
    arith,
    c.balanced p,
    count-none (entry after pgdir) p user_pages no_page_entry,
    count-none (after.words pgdir) p user_tables no_directory_entry,
  )

module _ (m : Machine) (e : ℕ) (es : List ℕ) (l : EnvList m es) (below : e < nenv)
    (alive : status_of m.kernel e ≢ EnvStatus.free) (memory : Memory) where
  abbrev freed_env : Env
  freed_env = record (m.kernel.envs e) {
    env_pgdir = none;
    env_status = EnvStatus.free;
    env_link = m.env_free_list;
  }

  abbrev freed_machine : Machine
  freed_machine = record m {
    kernel = set_env m.kernel e freed_env;
    env_free_list = some e;
    memory = memory;
  }

  freed-at : freed_machine.kernel.envs e ≡ freed_env
  freed-at = rw (==-refl e) refl

  freed-other : (f : ℕ) → f ≢ e → freed_machine.kernel.envs f ≡ m.kernel.envs f
  freed-other f n = rw (==_of_ne f e n) refl

  freed-EnvList : EnvList freed_machine (e ∷ es)
  freed-EnvList = record {
    chain = (refl, freed_chain);
    distinct = (NotIn-free m.kernel e es alive l.all_free, l.distinct);
    all_free = (
      below,
      ap (λ v. v.env_status) freed-at,
      AllEnvsFree-other m.kernel freed_machine.kernel e es freed-other
          (NotIn-free m.kernel e es alive l.all_free) l.all_free,
    );
    ids = λ f b. subst (IsEnvId f) (sym (same_id f)) (l.ids f b);
  }
    where
      same_id : (f : ℕ) → (freed_machine.kernel.envs f).env_id ≡ (m.kernel.envs f).env_id
      same_id f = elim (Bool-cases (f == e)) [
        | inl t ↦ let q : f ≡ e = ground arith in rw q (ap (λ v. v.env_id) freed-at)
        | inr t ↦ ap (λ v. v.env_id) (freed-other f (ground arith))
      ]

      freed_chain :
          Chain
            (λ f. (freed_machine.kernel.envs f).env_link)
            (freed_machine.kernel.envs e).env_link
            es
      freed_chain =
          subst (λ first. Chain (λ f. (freed_machine.kernel.envs f).env_link) first es)
            (sym (ap (λ v. v.env_link) freed-at))
            (Chain-elsewhere (λ f. (m.kernel.envs f).env_link)
              (λ f. (freed_machine.kernel.envs f).env_link) e m.env_free_list es
              (λ f n. ap (λ v. v.env_link) (freed-other f n))
              (NotIn-free m.kernel e es alive l.all_free) l.chain)

-- `env_free` of an environment whose address space is in order and has the bit P in every entry
-- that is not 0 never panics and its loops end.
-- Every page loses exactly the references that the user part of the address space held, from
-- tables and from the directory, and the directory loses one; the free pages are then those that
-- were free and those that lost their last reference, in a well-formed list. The slot becomes the first free one, and no other
-- environment changes.
pub env_free-Frees :
    (m : Machine) (e pgdir : ℕ) (es xs : List ℕ) {pins : ℕ → ℕ}
    → EnvList m es
    → e < nenv
    → status_of m.kernel e ≢ EnvStatus.free
    → (m.kernel.envs e).env_pgdir ≡ some pgdir
    → IsSpace m.memory pgdir xs pins
    → AllPresent m.memory pgdir
    → Frees m e pgdir es xs
env_free-Frees m e pgdir es xs l below alive dir s a =
    let (m1, clears, c) = free_tables-Clears user_tables 0 s a (omega arith) in
    let held : 0 < m1.pp_ref pgdir = omega (arith, c.space.counted pgdir, c.space.root_pinned) in
    let (d, ys, dec, free, refs, links, list) = page_decref-held c.space pgdir c.space.root held in
    let taken : d.refs pgdir ≡ m1.pp_ref pgdir - 1 = refs pgdir ∙ rw (==-refl pgdir) refl in
    record {
      after = freed_machine m e es l below alive (with_counts m1 d);
      free_pages = ys;
      frees = unfold env_free in bind-some _ dir ∙ (bind-some _ clears ∙ bind-some _ dec);
      pages = free;
      collects = Collects-then c.collects (
          Collects-one m1.pp_ref d.refs c.free_after ys pgdir
            (omega (arith, refs pgdir, taken, held)) (λ p n. refs p ∙ rw (==_of_ne p pgdir n) refl)
            list);
      refs = λ p. given_back_all m1 (d.refs p) p held (refs p) (given_back c p);
      list_after = freed-EnvList m e es l below alive (with_counts m1 d);
      no_directory = ap (λ v. v.env_pgdir) (freed-at m e es l below alive (with_counts m1 d));
      others = freed-other m e es l below alive (with_counts m1 d);
    }
  where
    given_back_all :
        (m1 : Memory) (r p : ℕ)
        → 0 < m1.pp_ref pgdir
        → r ≡ update m1.pp_ref pgdir (m1.pp_ref pgdir - 1) p
        → m1.pp_ref p + mapped m.memory pgdir p ≡ m.memory.pp_ref p
        → r + (mapped m.memory pgdir p + (if p == pgdir then 1 else 0)) ≡ m.memory.pp_ref p
    given_back_all m1 r p held q b = elim (Bool-cases (p == pgdir)) [
      | inl t ↦
          let u : p ≡ pgdir = ground arith in
          let v : r ≡ m1.pp_ref p - 1 = q ∙ (rw t (ap (λ x. m1.pp_ref x - 1) (sym u))) in
          let h : 0 < m1.pp_ref p = subst (λ x. 0 < m1.pp_ref x) (sym u) held in
          rw t (omega (arith, v, h, b))
      | inr t ↦ let v : r ≡ m1.pp_ref p = q ∙ (rw t refl) in rw t (omega (arith, v, b))
    ]
