-- ===== src/Memory/Tables/Space/Insert.antt =====
-- What `page_insert` does to an address space.
use Prim.Native.Nat.{bit_or}
use tps_sistemas_operativos.Prelude.{
  ℕ, ◌+◌, ◌/◌, ◌%◌, ◌^◌, ◌≤◌, ◌<◌, ◌≡◌, ◌≢◌, refl, sym, ap, ap₂, ◌∙◌, subst, true, false, none,
  some, List, [], ◌==◌, update, arith, Bool-cases, inl, inr, ◌⊎◌, ==-refl, ==_of_ne,
}
use tps_sistemas_operativos.Memory.{Memory, set_word, page2pa, utop, pte_p}
use tps_sistemas_operativos.Memory.Bits.{bit_or-odd}
use tps_sistemas_operativos.Memory.Pages.{incref}
use tps_sistemas_operativos.Memory.Pages.FreeList.{NotIn}
use tps_sistemas_operativos.Memory.Tables.{page_lookup, page_insert}
use tps_sistemas_operativos.Memory.Tables.Space.{
  user_tables, user_pages, entry, hit, count, count-update, pin, table, IsSpace, entry-set_word,
}
use tps_sistemas_operativos.Memory.Tables.Space.Counts.{
  counts_of, hit_self, hit_other, AllFree-elsewhere, IsSpace-write,
}
use tps_sistemas_operativos.Memory.Tables.Space.AddTable.{page2pa-pgnum, bit_or-keeps_pgnum}
use tps_sistemas_operativos.Memory.Tables.Space.Remove.{
  place_of, page_lookup-entry, Removes, page_remove-Removes,
}
use tps_sistemas_operativos.Memory.Tables.Space.Walk.{Walks, pgdir_walk-Walks, pgdir_walk-none}

-- the entry that maps a page
abbrev pub pte : ℕ → ℕ → ℕ
pte pp perm = bit_or (bit_or (page2pa pp) perm) pte_p

pub pte-pgnum : (pp perm : ℕ) → pp < 2 ^ 20 → perm < 4096 → pte pp perm / 4096 ≡ pp
pte-pgnum pp perm h k =
    bit_or-keeps_pgnum (bit_or (page2pa pp) perm) pte_p (omega arith) ∙ page2pa-pgnum pp perm h k

pub pte-ne-zero : (pp perm : ℕ) → pte pp perm ≢ 0
pte-ne-zero pp perm e =
    absurd (omega (arith, e, bit_or-odd (bit_or (page2pa pp) perm) pte_p (omega arith)))

hit-le-one : (w p : ℕ) → hit w p ≤ 1
hit-le-one w p = ground arith

-- A page that can be mapped: it is not free, and one reference more can be counted.
pub record IsMappable (m : Memory) (xs : List ℕ) (pp : ℕ) : Type 0 where
  pub below : pp < m.npages
  pub not_free : NotIn pp xs
  pub not_linked : m.pp_link pp ≡ none
  pub countable : m.pp_ref pp + 1 < 2 ^ 16

-- Counting the reference of an entry before the entry is written.
IsSpace-incref :
    {m : Memory} {pgdir : ℕ} {xs : List ℕ} {pins : ℕ → ℕ} (s : IsSpace m pgdir xs pins) (pp : ℕ)
    → IsMappable m xs pp
    → IsSpace (incref pp m) pgdir xs (pin pins pp)
IsSpace-incref {m} {pgdir} {xs} {pins} s pp g = record {
  free = record {
    chain = s.free.chain;
    distinct = s.free.distinct;
    all_free =
        AllFree-elsewhere m (incref pp m) pp xs refl (λ p n. rw (==_of_ne p pp n) refl) g.not_free
          s.free.all_free;
  };
  small = s.small;
  root = s.root;
  root_pinned = ground (arith, s.root_pinned);
  table_below = s.table_below;
  table_other = s.table_other;
  table_pinned = λ i l n. ground (arith, s.table_pinned i l n);
  apart = s.apart;
  page_below = s.page_below;
  counted = λ p. elim (Bool-cases (p == pp)) [
    | inl t ↦
        let q : p ≡ pp = ground arith in
        rw t (omega (arith, s.counted p, ap pins q, ap m.pp_ref q, g.countable))
    | inr t ↦ rw t (s.counted p)
  ];
  bounded = λ p. ground (arith, s.bounded p);
  unlinked = λ p h. elim (Bool-cases (p == pp)) [
    | inl t ↦ let q : p ≡ pp = ground arith in ap m.pp_link q ∙ g.not_linked
    | inr t ↦ s.unlinked p (ground arith)
  ];
}

-- What is left after a page was inserted.
pub record Inserts (m : Memory) (pgdir : ℕ) (xs : List ℕ) (pins : ℕ → ℕ) (pp va perm : ℕ)
    : Type 0 where
  pub after : Memory
  pub free_after : List ℕ
  pub pins_after : ℕ → ℕ
  pub inserts : page_insert pgdir pp va perm m ≡ some (true, after)
  pub space_after : IsSpace after pgdir free_after pins_after
  pub entries :
      (j : ℕ)
      → j < user_pages
      → entry after pgdir j ≡ update (entry m pgdir) (va / 4096) (pte pp perm) j
  pub found : page_lookup pgdir va after ≡ some (some (pp, place_of after pgdir va))
  pub pins_kept : (p : ℕ) → pins p ≤ pins_after p
  pub refs :
      (p : ℕ)
      → NotIn p xs
      → after.pp_ref p + hit (entry m pgdir (va / 4096)) p ≡ m.pp_ref p + hit (pte pp perm) p

module _ {m : Memory} {pgdir : ℕ} {xs : List ℕ} {pins : ℕ → ℕ} (pp va perm : ℕ) (user : va < utop)
    (low : perm < 4096) (w : Walks m pgdir xs pins va) (g : IsMappable m xs pp) where
  mappable : IsMappable w.after w.free_after pp
  mappable = record {
    below = omega (arith, w.npages_same, g.below);
    not_free = w.still_used pp g.not_free;
    not_linked = w.links_kept pp g.not_free ∙ g.not_linked;
    countable = omega (arith, w.refs_kept pp g.not_free, g.countable);
  }

  counted_space : IsSpace (incref pp w.after) pgdir w.free_after (pin w.pins_after pp)
  counted_space = IsSpace-incref w.space_after pp mappable

  removed : Removes (incref pp w.after) pgdir w.free_after (pin w.pins_after pp) va
  removed = page_remove-Removes counted_space va user

  abbrev k : ℕ
  k = va / 4096

  emptied : entry removed.after pgdir k ≡ 0
  emptied = removed.entries k (omega (arith, user)) ∙ rw (==-refl k) refl

  small : pp < 2 ^ 20
  small = omega (arith, w.space_after.small, w.npages_same, g.below)

  still_table : removed.after.words pgdir (k / 1024) ≢ 0
  still_table e = w.has_table (ap (λ f. f (k / 1024)) (sym removed.directory) ∙ e)

  recounted :
      (p : ℕ)
      → count (update (entry removed.after pgdir) k (pte pp perm)) p user_pages + w.pins_after p
        ≤ removed.after.pp_ref p
  recounted p =
      let change =
        count-update (entry removed.after pgdir) k (pte pp perm) p user_pages
          (omega (arith, user)) in
      let old : hit (entry removed.after pgdir k) p ≡ 0 = rw emptied refl in
      elim (Bool-cases (p == pp)) [
        | inl t ↦
            let q : p ≡ pp = ground arith in
            let one : pin w.pins_after pp p ≡ w.pins_after p + 1 =
              rw t (ap (λ x. w.pins_after x + 1) (sym q)) in
            omega
              (arith, change, old, one, hit-le-one (pte pp perm) p, removed.space_after.counted p)
        | inr t ↦
            let same : pin w.pins_after pp p ≡ w.pins_after p = rw t refl in
            let n : p ≢ pp = ground arith in
            let other : hit (pte pp perm) p ≡ 0 =
              hit_other (pte pp perm) p (λ z. n (z ∙ pte-pgnum pp perm small low)) in
            omega (arith, change, old, same, other, removed.space_after.counted p)
      ]

  abbrev inserted : Memory
  inserted = set_word removed.after (place_of removed.after pgdir va) (pte pp perm)

  inserted-IsSpace : IsSpace inserted pgdir removed.free_after w.pins_after
  inserted-IsSpace =
      IsSpace-write removed.space_after k (pte pp perm) (counts_of removed.after) removed.free_after
        w.pins_after (omega (arith, user)) still_table removed.space_after.free
        w.space_after.root_pinned tables_pinned
        (λ n.
          omega (arith, pte-pgnum pp perm small low, removed.npages_same, w.npages_same, g.below))
        recounted removed.space_after.bounded removed.space_after.unlinked
    where
      tables_pinned :
          (i : ℕ)
          → i < user_tables
          → removed.after.words pgdir i ≢ 0
          → 0 < w.pins_after (table removed.after pgdir i)
      tables_pinned i l n =
          subst (λ f. 0 < w.pins_after (f i / 4096)) (sym removed.directory)
            (w.space_after.table_pinned i l (λ z. n (ap (λ f. f i) removed.directory ∙ z)))

  inserted-entries :
      (j : ℕ) → j < user_pages → entry inserted pgdir j ≡ update (entry m pgdir) k (pte pp perm) j
  inserted-entries j l =
      entry-set_word removed.space_after k (pte pp perm) (omega (arith, user)) still_table j l
      ∙ elim (Bool-cases (j == k)) [
        | inl t ↦ rw t refl
        | inr t ↦ rw t (removed.entries j l ∙ (rw t (w.entries j l)))
      ]

  same_place : place_of removed.after pgdir va ≡ place_of w.after pgdir va
  same_place = ap (λ f. record { page = f (k / 1024) / 4096; index = k % 1024 }) removed.directory

  page_insert-inserted : page_insert pgdir pp va perm m ≡ some (true, inserted)
  page_insert-inserted = unfold page_insert in rw w.walks (rw removed.removes (rw same_place refl))

  inserted-found : page_lookup pgdir va inserted ≡ some (some (pp, place_of inserted pgdir va))
  inserted-found =
      let here : entry inserted pgdir k ≡ pte pp perm =
        inserted-entries k (omega (arith, user)) ∙ rw (==-refl k) refl in
      page_lookup-entry inserted-IsSpace va user
      ∙ rw here (
          rw (==_of_ne (pte pp perm) 0 (pte-ne-zero pp perm))
            (rw (pte-pgnum pp perm small low) refl))

  inserted-refs :
      (p : ℕ)
      → NotIn p xs
      → inserted.pp_ref p + hit (entry m pgdir k) p ≡ m.pp_ref p + hit (pte pp perm) p
  inserted-refs p n =
      let gone : removed.after.pp_ref p + hit (entry m pgdir k) p ≡ (incref pp w.after).pp_ref p =
        ap (λ x. removed.after.pp_ref p + hit x p) (sym (w.entries k (omega (arith, user))))
        ∙ removed.refs p in
      unfold set_word in
      gone ∙ elim (Bool-cases (p == pp)) [
        | inl t ↦
            let q : p ≡ pp = ground arith in
            rw t (
              rw q (
                w_counted
                ∙ ap₂ ◌+◌ refl (
                    sym (
                      ap (hit (pte pp perm)) (sym (pte-pgnum pp perm small low))
                      ∙ hit_self (pte pp perm) (pte-ne-zero pp perm)))))
        | inr t ↦
            let c : p ≢ pp = ground arith in
            rw t (
              w.refs_kept p n
              ∙ omega (arith, hit_other (pte pp perm) p (λ z. c (z ∙ pte-pgnum pp perm small low))))
      ]
    where
      w_counted : (w.after.pp_ref pp + 1) % 2 ^ 16 ≡ m.pp_ref pp + 1
      w_counted = omega (arith, w.refs_kept pp g.not_free, g.countable)

  inserted_lem : Inserts m pgdir xs pins pp va perm
  inserted_lem = record {
    after = inserted;
    free_after = removed.free_after;
    pins_after = w.pins_after;
    inserts = page_insert-inserted;
    space_after = inserted-IsSpace;
    entries = inserted-entries;
    found = inserted-found;
    pins_kept = w.pins_kept;
    refs = inserted-refs;
  }

-- Below `UTOP`, with a page table for the address or a free page to make one of, `page_insert` of
-- a page in use neither panics nor fails: afterwards `page_lookup` finds the page at the address,
-- every other page of the address space is mapped as before, of the pages in use the one that was
-- mapped there lost a reference and the inserted one gained one, and the address space is in order.
pub page_insert-Inserts :
    {m : Memory} {pgdir : ℕ} (xs : List ℕ) {pins : ℕ → ℕ} (s : IsSpace m pgdir xs pins)
    (pp va perm : ℕ)
    → va < utop
    → perm < 4096
    → IsMappable m xs pp
    → (m.words pgdir (va / 4096 / 1024) ≢ 0) ⊎ (xs ≢ [])
    → Inserts m pgdir xs pins pp va perm
page_insert-Inserts xs s pp va perm user low g room =
    inserted_lem pp va perm user low (pgdir_walk-Walks xs s va user room) g

-- Without a page table for the address and without a free page, `page_insert` fails and changes
-- nothing.
pub page_insert-none :
    {m : Memory} {pgdir : ℕ} {pins : ℕ → ℕ} (s : IsSpace m pgdir [] pins) (pp va perm : ℕ)
    → va < utop
    → m.words pgdir (va / 4096 / 1024) ≡ 0
    → page_insert pgdir pp va perm m ≡ some (false, m)
page_insert-none s pp va perm user e =
    unfold page_insert in rw (pgdir_walk-none s va user e refl) refl
