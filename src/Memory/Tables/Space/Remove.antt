-- ===== src/Memory/Tables/Space/Remove.antt =====
-- What `page_lookup` finds in an address space, and what `page_remove` does to it.
use tps_sistemas_operativos.Prelude.{
  ℕ, ◌+◌, ◌-◌, ◌/◌, ◌%◌, ◌^◌, ◌≤◌, ◌<◌, ◌≡◌, ◌≢◌, refl, sym, ap, ◌∙◌, subst, true, false, Option,
  none, some, List, ◌∷◌, ◌==◌, ltb, if◌then◌else◌, ◌>>=◌, update, arith, Bool-cases, inl, inr,
  ==_of_ne,
}
use tps_sistemas_operativos.Memory.{Memory, Place, set_word, kaddr, pdx, pgnum, utop, word_at}
use tps_sistemas_operativos.Memory.Pages.Collect.{Collects, Collects-kept, Collects-one}
use tps_sistemas_operativos.Memory.Tables.{entry_in, page_lookup, page_remove}
use tps_sistemas_operativos.Memory.Tables.Space.{
  user_pages, entry, hit, count, count-update, table, IsSpace, entry-set_word, directory_same,
}
use tps_sistemas_operativos.Memory.Tables.Space.Counts.{
  Counts, with_counts, hit-le-count, hit_self, hit_other, page_decref-held, IsSpace-write,
}

-- where the entry for an address stands, if there is a table for it
abbrev pub place_of : Memory → ℕ → ℕ → Place
place_of m pgdir va = record { page = table m pgdir (va / 4096 / 1024); index = va / 4096 % 1024 }

module _ {m : Memory} {pgdir : ℕ} {xs : List ℕ} {pins : ℕ → ℕ} (s : IsSpace m pgdir xs pins)
    (va : ℕ) (user : va < utop) where
  directory_index : pdx va ≡ va / 4096 / 1024
  directory_index = omega arith

  pub entry_in-none : m.words pgdir (va / 4096 / 1024) ≡ 0 → entry_in pgdir va m ≡ some none
  entry_in-none e = unfold entry_in in rw directory_index (rw e refl)

  pub entry_in-some :
      m.words pgdir (va / 4096 / 1024) ≢ 0 → entry_in pgdir va m ≡ some (some (place_of m pgdir va))
  entry_in-some e =
      unfold entry_in in
      rw directory_index (rw (==_of_ne (m.words pgdir (va / 4096 / 1024)) 0 e) (rw fits refl))
    where
      fits : ltb (table m pgdir (va / 4096 / 1024)) m.npages ≡ true
      fits = ground (arith, s.table_below (va / 4096 / 1024) (omega arith) e)

  -- the page that an address is mapped to and the place of its entry, or none
  pub page_lookup-entry : page_lookup pgdir va m ≡ (
      if entry m pgdir (va / 4096) == 0
      then some none
      else some (some (entry m pgdir (va / 4096) / 4096, place_of m pgdir va)))
  page_lookup-entry = elim (Bool-cases (m.words pgdir (va / 4096 / 1024) == 0)) [
    | inl e ↦
        let z : m.words pgdir (va / 4096 / 1024) ≡ 0 = ground arith in
        unfold page_lookup in rw (entry_in-none z) (rw e refl)
    | inr e ↦
        let z : m.words pgdir (va / 4096 / 1024) ≢ 0 = ground arith in
        unfold page_lookup in rw (entry_in-some z) (rw e (found (rw e refl)))
  ]
    where
      word : ℕ
      word = word_at m (place_of m pgdir va)

      fits :
          entry m pgdir (va / 4096) ≡ word → (word == 0) ≡ false → ltb (word / 4096) m.npages ≡ true
      fits q z =
          let b =
            subst (λ w. w / 4096 < m.npages) q
              (s.page_below (va / 4096) (omega arith) (λ y. absurd (ground (arith, z, y, q)))) in
          ground (arith, b)

      Found : Type 0
      Found = Option (Option (ℕ × Place))

      found :
          entry m pgdir (va / 4096) ≡ word
          → if◌then◌else◌ {A = Found}
              (word == 0)
              (some none)
              (kaddr m (pgnum word) >>= λ pp. some (some (pp, place_of m pgdir va)))
            ≡ if◌then◌else◌ {A = Found}
                (word == 0)
                (some none)
                (some (some (word / 4096, place_of m pgdir va)))
      found q = elim (Bool-cases (word == 0)) [
        | inl z ↦ rw z refl
        | inr z ↦ rw z (rw (fits q z) refl)
      ]

-- What is left after an entry was removed.
pub record Removes (m : Memory) (pgdir : ℕ) (xs : List ℕ) (pins : ℕ → ℕ) (va : ℕ) : Type 0 where
  pub after : Memory
  pub free_after : List ℕ
  pub removes : page_remove pgdir va m ≡ some after
  pub space_after : IsSpace after pgdir free_after pins
  pub entries :
      (j : ℕ) → j < user_pages → entry after pgdir j ≡ update (entry m pgdir) (va / 4096) 0 j
  pub directory : after.words pgdir ≡ m.words pgdir
  pub npages_same : after.npages ≡ m.npages
  pub refs : (p : ℕ) → after.pp_ref p + hit (entry m pgdir (va / 4096)) p ≡ m.pp_ref p
  pub free_pages : free_after ≡ (
      if entry m pgdir (va / 4096) == 0
      then xs
      else if m.pp_ref (entry m pgdir (va / 4096) / 4096) == 1
      then entry m pgdir (va / 4096) / 4096 ∷ xs
      else xs)

-- the pages that become free on the way
pub Collects-Removes :
    {m : Memory} {pgdir : ℕ} {xs : List ℕ} {pins : ℕ → ℕ} {va : ℕ} (r : Removes m pgdir xs pins va)
    → Collects m.pp_ref xs r.after.pp_ref r.free_after
Collects-Removes {m} {pgdir} {xs} {pins} {va} r =
    elim (Bool-cases (entry m pgdir (va / 4096) == 0)) [
      | inl e ↦ unmapped (ground (arith, e)) (r.free_pages ∙ rw e refl)
      | inr e ↦
          let n : w ≢ 0 = ground (arith, e) in
          Collects-one m.pp_ref r.after.pp_ref xs r.free_after (w / 4096)
            (omega (arith, r.refs (w / 4096), hit_self w n))
            (λ p o. omega (arith, r.refs p, hit_other w p o)) (r.free_pages ∙ rw e refl)
    ]
  where
    w : ℕ
    w = entry m pgdir (va / 4096)

    unmapped : w ≡ 0 → r.free_after ≡ xs → Collects m.pp_ref xs r.after.pp_ref r.free_after
    unmapped z same =
        let no_hit : (p : ℕ) → hit w p ≡ 0 = λ p. ground (arith, z) in
        Collects-kept m.pp_ref r.after.pp_ref xs r.free_after
          (λ p. omega (arith, r.refs p, no_hit p)) same

-- `page_remove` below `UTOP` never panics: it clears the entry of the address and no other, takes
-- one reference from the page that was mapped there, which becomes the first free page when that
-- was its last one, and leaves the address space in order.
pub page_remove-Removes :
    {m : Memory} {pgdir : ℕ} {xs : List ℕ} {pins : ℕ → ℕ} (s : IsSpace m pgdir xs pins) (va : ℕ)
    → va < utop
    → Removes m pgdir xs pins va
page_remove-Removes {m} {pgdir} {xs} {pins} s va user =
    elim (Bool-cases (entry m pgdir (va / 4096) == 0)) [
      | inl e ↦ record {
        after = m;
        free_after = xs;
        removes = unfold page_remove in rw (page_lookup-entry s va user) (rw e refl);
        space_after = s;
        entries = λ j l. unchanged e j;
        directory = refl;
        npages_same = refl;
        refs = λ p. rw e (omega arith);
        free_pages = rw e refl;
      }
      | inr e ↦ mapped e (ground arith)
    ]
  where
    unchanged :
        (entry m pgdir (va / 4096) == 0) ≡ true
        → (j : ℕ) → entry m pgdir j ≡ update (entry m pgdir) (va / 4096) 0 j
    unchanged e j = elim (Bool-cases (j == va / 4096)) [
      | inl t ↦
          let q : j ≡ va / 4096 = ground arith in rw t (ap (entry m pgdir) q ∙ ground (arith, e))
      | inr t ↦ rw t refl
    ]

    k : ℕ
    k = va / 4096

    w : ℕ
    w = entry m pgdir (va / 4096)

    has_table : w ≢ 0 → m.words pgdir (k / 1024) ≢ 0
    has_table n z = n (rw z refl)

    held : w ≢ 0 → 0 < m.pp_ref (w / 4096)
    held n = omega (
      arith,
      s.counted (w / 4096),
      hit-le-count (entry m pgdir) (w / 4096) k user_pages (omega arith),
      hit_self w n,
    )

    taken :
        (c : Counts)
        → w ≢ 0
        → ((p : ℕ) → c.refs p ≡ update m.pp_ref (w / 4096) (m.pp_ref (w / 4096) - 1) p)
        → (p : ℕ) → c.refs p + hit w p ≡ m.pp_ref p
    taken c n r p = elim (Bool-cases (p == w / 4096)) [
      | inl t ↦
          let q : p ≡ w / 4096 = ground arith in
          let v : c.refs p ≡ m.pp_ref p - 1 = r p ∙ (rw t (ap (λ x. m.pp_ref x - 1) (sym q))) in
          let one : hit w p ≡ 1 = ap (hit w) q ∙ hit_self w n in
          let some_left : 0 < m.pp_ref p = subst (λ x. 0 < m.pp_ref x) (sym q) (held n) in
          omega (arith, v, one, some_left)
      | inr t ↦
          let v : c.refs p ≡ m.pp_ref p = r p ∙ (rw t refl) in
          omega (arith, v, hit_other w p (ground arith))
    ]

    counted :
        (c : Counts)
        → w ≢ 0
        → ((p : ℕ) → c.refs p ≡ update m.pp_ref (w / 4096) (m.pp_ref (w / 4096) - 1) p)
        → (p : ℕ) → count (update (entry m pgdir) k 0) p user_pages + pins p ≤ c.refs p
    counted c n r p = omega (
      arith,
      taken c n r p,
      count-update (entry m pgdir) k 0 p user_pages (omega arith),
      s.counted p,
    )

    bounded :
        (c : Counts)
        → ((p : ℕ) → c.refs p ≡ update m.pp_ref (w / 4096) (m.pp_ref (w / 4096) - 1) p)
        → (p : ℕ) → c.refs p < 2 ^ 16
    bounded c r p = ground (arith, r p, s.bounded p, s.bounded (w / 4096))

    mapped : (entry m pgdir (va / 4096) == 0) ≡ false → w ≢ 0 → Removes m pgdir xs pins va
    mapped e n =
        let (c, ys, dec, fl, refs, links, list) =
          page_decref-held s (w / 4096) (s.page_below k (omega arith) n) (held n) in
        record {
          after = set_word (with_counts m c) (place_of m pgdir va) 0;
          free_after = ys;
          removes = unfold page_remove in rw (page_lookup-entry s va user) (rw e (rw dec refl));
          space_after =
              IsSpace-write s k 0 c ys pins (omega arith) (has_table n) fl s.root_pinned
                s.table_pinned (λ z. absurd (z refl)) (counted c n refs) (bounded c refs) links;
          entries = λ j l. unfold set_word in entry-set_word s k 0 (omega arith) (has_table n) j l;
          directory = unfold set_word in directory_same s k 0 (omega arith) (has_table n);
          npages_same = unfold set_word in refl;
          refs = λ p. unfold set_word in taken c n refs p;
          free_pages = list ∙ rw e refl;
        }
