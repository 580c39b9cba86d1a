-- ===== src/Machine/Destroy/Untable.antt =====
-- What `env_free` does with an empty page table.
use tps_sistemas_operativos.Prelude.{
  ℕ, ◌+◌, ◌-◌, ◌/◌, ◌%◌, ◌≤◌, ◌<◌, ◌≡◌, ◌≢◌, refl, sym, ap, ◌∙◌, subst, none, some, List, ◌∷◌,
  if◌then◌else◌, ◌==◌, update, arith, Bool-cases, inl, inr, ==-refl, ==_of_ne,
}
use tps_sistemas_operativos.Memory.{Memory, set_word}
use tps_sistemas_operativos.Memory.Pages.{page_decref}
use tps_sistemas_operativos.Memory.Pages.FreeList.{FreeList, AllFree-same}
use tps_sistemas_operativos.Memory.Tables.Space.{
  user_tables, user_pages, entry, hit, count, count-same, count-update, table, IsSpace,
  set_word_other,
}
use tps_sistemas_operativos.Memory.Tables.Space.Counts.{
  Counts, with_counts, page_decref-held, hit_self, hit_other,
}
use tps_sistemas_operativos.Memory.Pages.Collect.{Collects, Collects-one}
use tps_sistemas_operativos.Machine.Destroy.Flush.{mapped}

-- one reference less to a page
abbrev pub unpin : (ℕ → ℕ) → ℕ → ℕ → ℕ
unpin pins q = update pins q (pins q - 1)

module _ {m : Memory} {pgdir : ℕ} {xs : List ℕ} {pins : ℕ → ℕ} (s : IsSpace m pgdir xs pins) (i : ℕ)
    (below : i < user_tables) (present : m.words pgdir i ≢ 0)
    (cleared : (j : ℕ) → j < user_pages → j / 1024 ≡ i → entry m pgdir j ≡ 0) where
  -- the memory with the entry of the directory cleared
  abbrev unlinked : Memory
  unlinked = set_word m (record { page = pgdir; index = i }) 0

  words_directory : (j : ℕ) → unlinked.words pgdir j ≡ update (m.words pgdir) i 0 j
  words_directory j = unfold set_word in rw (==-refl pgdir) refl

  -- an entry of the directory that is still there
  left : (j : ℕ) → unlinked.words pgdir j ≢ 0 → (j ≢ i) × (unlinked.words pgdir j ≡ m.words pgdir j)
  left j n = elim (Bool-cases (j == i)) [
    | inl t ↦ absurd (n (words_directory j ∙ rw t refl))
    | inr t ↦ (ground arith, words_directory j ∙ rw t refl)
  ]

  was_there : (j : ℕ) → unlinked.words pgdir j ≢ 0 → m.words pgdir j ≢ 0
  was_there j n z = n ((left j n).1 ∙ z)

  same_table : (j : ℕ) → unlinked.words pgdir j ≢ 0 → table unlinked pgdir j ≡ table m pgdir j
  same_table j n = ap (λ w. w / 4096) (left j n).1

  pub entry-unlinked : (j : ℕ) → j < user_pages → entry unlinked pgdir j ≡ entry m pgdir j
  entry-unlinked j l = elim (Bool-cases (j / 1024 == i)) [
    | inl t ↦
        let gone : unlinked.words pgdir (j / 1024) ≡ 0 = words_directory (j / 1024) ∙ rw t refl in
        rw gone (sym (cleared j l (ground arith)))
    | inr t ↦
        let same : unlinked.words pgdir (j / 1024) ≡ m.words pgdir (j / 1024) =
          words_directory (j / 1024) ∙ rw t refl in
        rw same (elim (Bool-cases (m.words pgdir (j / 1024) == 0)) [
          | inl z ↦ rw z refl
          | inr z ↦ rw z (
              ap (λ f. f (j % 1024))
                (set_word_other m (record { page = pgdir; index = i }) 0 (table m pgdir (j / 1024))
                  (s.table_other (j / 1024) (omega arith) (ground arith))))
        ])
  ]

  count-unlinked :
      (p : ℕ) → count (entry unlinked pgdir) p user_pages ≡ count (entry m pgdir) p user_pages
  count-unlinked p = count-same (entry unlinked pgdir) (entry m pgdir) p user_pages entry-unlinked

  count-directory :
      (p : ℕ)
      → count (unlinked.words pgdir) p user_tables + hit (m.words pgdir i) p
        ≡ count (m.words pgdir) p user_tables
  count-directory p = omega (
    arith,
    count-same (unlinked.words pgdir) (update (m.words pgdir) i 0) p user_tables
        (λ j l. words_directory j),
    count-update (m.words pgdir) i 0 p user_tables below,
  )

  unlinked-IsSpace : IsSpace unlinked pgdir xs pins
  unlinked-IsSpace = record {
    free = record {
      chain = unfold set_word in s.free.chain;
      distinct = s.free.distinct;
      all_free =
          AllFree-same m unlinked xs (unfold set_word in refl) (λ p. unfold set_word in refl)
            s.free.all_free;
    };
    small = unfold set_word in s.small;
    root = unfold set_word in s.root;
    root_pinned = s.root_pinned;
    table_below =
        λ j l n. rw (same_table j n) (unfold set_word in s.table_below j l (was_there j n));
    table_other = λ j l n. rw (same_table j n) (s.table_other j l (was_there j n));
    table_pinned = λ j l n. rw (same_table j n) (s.table_pinned j l (was_there j n));
    apart = λ j k lj lk nj nk d.
        rw (same_table j nj)
          (rw (same_table k nk) (s.apart j k lj lk (was_there j nj) (was_there k nk) d));
    page_below = λ j l.
        subst (λ w. w ≢ 0 → w / 4096 < unlinked.npages) (sym (entry-unlinked j l))
          (unfold set_word in s.page_below j l);
    counted = λ p. rw (count-unlinked p) (unfold set_word in s.counted p);
    bounded = λ p. unfold set_word in s.bounded p;
    unlinked = unfold set_word in s.unlinked;
  }

  abbrev t : ℕ
  t = table m pgdir i

  held : 0 < unlinked.pp_ref t
  held = omega (arith, unlinked-IsSpace.counted t, s.table_pinned i below present)

  below_t : t < unlinked.npages
  below_t = unfold set_word in s.table_below i below present

  module _ (c : Counts) (ys : List ℕ) (free : FreeList (with_counts unlinked c) ys)
      (refs : (p : ℕ) → c.refs p ≡ update unlinked.pp_ref t (unlinked.pp_ref t - 1) p)
      (links : (p : ℕ) → 0 < c.refs p → c.links p ≡ none) where
    abbrev released : Memory
    released = with_counts unlinked c

    one_less : (p : ℕ) → c.refs p + hit (m.words pgdir i) p ≡ unlinked.pp_ref p
    one_less p = elim (Bool-cases (p == t)) [
      | inl e ↦
          let q : p ≡ t = ground arith in
          let v : c.refs p ≡ unlinked.pp_ref p - 1 =
            refs p ∙ (rw e (ap (λ x. unlinked.pp_ref x - 1) (sym q))) in
          let one : hit (m.words pgdir i) p ≡ 1 =
            ap (hit (m.words pgdir i)) q ∙ hit_self (m.words pgdir i) present in
          let some_left : 0 < unlinked.pp_ref p = subst (λ x. 0 < unlinked.pp_ref x) (sym q) held in
          omega (arith, v, one, some_left)
      | inr e ↦
          let v : c.refs p ≡ unlinked.pp_ref p = refs p ∙ (rw e refl) in
          omega (arith, v, hit_other (m.words pgdir i) p (ground arith))
    ]

    still_counted : (p : ℕ) → count (entry unlinked pgdir) p user_pages + unpin pins t p ≤ c.refs p
    still_counted p = elim (Bool-cases (p == t)) [
      | inl e ↦
          let q : p ≡ t = ground arith in
          let one : hit (m.words pgdir i) p ≡ 1 =
            ap (hit (m.words pgdir i)) q ∙ hit_self (m.words pgdir i) present in
          let less : unpin pins t p ≡ pins p - 1 = rw e (ap (λ x. pins x - 1) (sym q)) in
          let pinned : 0 < pins p =
            subst (λ x. 0 < pins x) (sym q) (s.table_pinned i below present) in
          omega (arith, one, less, pinned, one_less p, unlinked-IsSpace.counted p)
      | inr e ↦
          let same : unpin pins t p ≡ pins p = rw e refl in
          let zero_hit = hit_other (m.words pgdir i) p (ground arith) in
          omega (arith, same, zero_hit, one_less p, unlinked-IsSpace.counted p)
    ]

    unpin_other : (p : ℕ) → p ≢ t → 0 < pins p → 0 < unpin pins t p
    unpin_other p n h = rw (==_of_ne p t n) h

    released-IsSpace : IsSpace released pgdir ys (unpin pins t)
    released-IsSpace =
        let u = unlinked-IsSpace in
        record {
          free = free;
          small = u.small;
          root = u.root;
          root_pinned =
              unpin_other pgdir (λ q. s.table_other i below present (sym q)) s.root_pinned;
          table_below = u.table_below;
          table_other = u.table_other;
          table_pinned = λ j l n.
              unpin_other (table unlinked pgdir j)
                (λ q.
                  s.apart j i l below (was_there j n) present (left j n).0
                    (sym (same_table j n) ∙ q))
                (u.table_pinned j l n);
          apart = u.apart;
          page_below = u.page_below;
          counted = still_counted;
          bounded = λ p. omega (arith, one_less p, u.bounded p);
          unlinked = links;
        }

-- What is left after an empty table was given back.
pub record Untables (m : Memory) (pgdir : ℕ) (xs : List ℕ) (pins : ℕ → ℕ) (i : ℕ) (after : Memory)
    : Type 0 where
  pub free_after : List ℕ
  pub space : IsSpace after pgdir free_after (unpin pins (table m pgdir i))
  pub entries : (j : ℕ) → j < user_pages → entry after pgdir j ≡ entry m pgdir j
  pub directory : (j : ℕ) → after.words pgdir j ≡ update (m.words pgdir) i 0 j
  pub collects : Collects m.pp_ref xs after.pp_ref free_after
  pub balanced : (p : ℕ) → after.pp_ref p + mapped m pgdir p ≡ m.pp_ref p + mapped after pgdir p

-- Clearing the entry of an empty table and taking its reference away does not panic.
pub decref-Untables :
    {m : Memory} {pgdir : ℕ} {xs : List ℕ} {pins : ℕ → ℕ} (s : IsSpace m pgdir xs pins) (i : ℕ)
    → i < user_tables
    → m.words pgdir i ≢ 0
    → ((j : ℕ) → j < user_pages → j / 1024 ≡ i → entry m pgdir j ≡ 0)
    → (after : Memory) × (page_decref
          (table m pgdir i)
          (set_word m (record { page = pgdir; index = i }) 0)
        ≡ some after)
      × Untables m pgdir xs pins i after
decref-Untables {m} {pgdir} {xs} {pins} s i l n z =
    let (c, ys, dec, free, refs, links, list) =
      page_decref-held (unlinked-IsSpace s i l n z) (table m pgdir i) (below_t s i l n z)
        (held s i l n z) in
    (
      with_counts (unlinked s i l n z) c,
      dec,
      record {
        free_after = ys;
        space = released-IsSpace s i l n z c ys free refs links;
        entries = entry-unlinked s i l n z;
        directory = words_directory s i l n z;
        collects = collected c ys (one_less s i l n z c ys free refs links) list;
        balanced = λ p. balances c refs p (one_less s i l n z c ys free refs links p);
      },
    )
  where
    same_refs : (p : ℕ) → (unlinked s i l n z).pp_ref p ≡ m.pp_ref p
    same_refs p = unfold set_word in refl

    collected :
        (c : Counts) (ys : List ℕ)
        → ((p : ℕ) → c.refs p + hit (m.words pgdir i) p ≡ (unlinked s i l n z).pp_ref p)
        → ys ≡ (
            if (unlinked s i l n z).pp_ref (table m pgdir i) == 1 then table m pgdir i ∷ xs else xs)
        → Collects m.pp_ref xs c.refs ys
    collected c ys one list =
        Collects-one m.pp_ref c.refs xs ys (table m pgdir i)
          (omega (
            arith,
            one (table m pgdir i),
            hit_self (m.words pgdir i) n,
            same_refs (table m pgdir i),
          ))
          (λ p o. omega (arith, one p, hit_other (m.words pgdir i) p o, same_refs p))
          (list ∙ rw (same_refs (table m pgdir i)) refl)

    balances :
        (c : Counts)
        → ((p : ℕ)
            → c.refs p
              ≡ update
                  (unlinked s i l n z).pp_ref
                  (table m pgdir i)
                  ((unlinked s i l n z).pp_ref (table m pgdir i) - 1)
                  p)
        → (p : ℕ) → c.refs p + hit (m.words pgdir i) p ≡ (unlinked s i l n z).pp_ref p
        → c.refs p + mapped m pgdir p ≡ m.pp_ref p + mapped (unlinked s i l n z) pgdir p
    balances c refs p one =
        omega (arith, one, same_refs p, count-unlinked s i l n z p, count-directory s i l n z p)
