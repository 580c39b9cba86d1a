-- ===== src/Memory/Tables/Space/Counts.antt =====
-- Reference counts of the pages that an address space maps, and writes of its entries.
use tps_sistemas_operativos.Prelude.{
  ℕ, ◌+◌, ◌-◌, ◌/◌, ◌%◌, ◌^◌, ◌≤◌, ◌<◌, ◌≡◌, ◌≢◌, refl, sym, ap, ◌∙◌, subst, true, false, Option,
  none, some, List, [], ◌∷◌, ◌==◌, if◌then◌else◌, update, arith, Bool-cases, inl, inr, ==-refl,
  ==_of_ne,
}
use tps_sistemas_operativos.Memory.{Memory, Place, set_word}
use tps_sistemas_operativos.Memory.Pages.{page_decref, decref}
use tps_sistemas_operativos.Memory.Pages.FreeList.{
  NotIn, AllFree, AllFree-same, FreeList, freed, page_alloc-Allocates,
}
use tps_sistemas_operativos.Memory.Tables.Space.{
  user_tables, user_pages, entry, hit, count, count-same, count-update, table, IsSpace, AllFree-ref,
  directory_same, entry-set_word,
}

-- what a memory holds besides its words
pub record Counts : Type 0 where
  pub refs : ℕ → ℕ
  pub links : ℕ → Option ℕ
  pub first : Option ℕ

abbrev pub with_counts : Memory → Counts → Memory
with_counts m c = record m { pp_ref = c.refs; pp_link = c.links; page_free_list = c.first }

abbrev pub counts_of : Memory → Counts
counts_of m = record { refs = m.pp_ref; links = m.pp_link; first = m.page_free_list }

-- a hit of an entry in a slot shows in the count
pub hit-le-count : (f : ℕ → ℕ) (p k n : ℕ) → k < n → hit (f k) p ≤ count f p n
hit-le-count f p k n h = omega (arith, count-update f k 0 p n h)

pub hit_self : (w : ℕ) → w ≢ 0 → hit w (w / 4096) ≡ 1
hit_self w h = rw (==_of_ne w 0 h) (rw (==-refl (w / 4096)) refl)

pub hit_other : (w p : ℕ) → p ≢ w / 4096 → hit w p ≡ 0
hit_other w p h = ground arith

pub AllFree-elsewhere :
    (m m' : Memory) (q : ℕ) (xs : List ℕ)
    → m'.npages ≡ m.npages
    → ((p : ℕ) → p ≢ q → m'.pp_ref p ≡ m.pp_ref p)
    → NotIn q xs
    → AllFree m xs
    → AllFree m' xs
AllFree-elsewhere m m' q [] e r n a = tt
AllFree-elsewhere m m' q (x ∷ xs) e r n a =
    (rw e a.0, r x (λ z. n.0 (sym z)) ∙ a.1, AllFree-elsewhere m m' q xs e r n.1 a.2)

-- what is left of the references when one of them goes away
module _ {m : Memory} {pgdir : ℕ} {xs : List ℕ} {pins : ℕ → ℕ} (s : IsSpace m pgdir xs pins) (q : ℕ)
    (below : q < m.npages) (held : 0 < m.pp_ref q) where
  decref-FreeList : FreeList (decref q m) xs
  decref-FreeList = record {
    chain = s.free.chain;
    distinct = s.free.distinct;
    all_free =
        AllFree-elsewhere m (decref q m) q xs refl (λ p n. rw (==_of_ne p q n) refl)
          (AllFree-ref m xs q s.free.all_free held) s.free.all_free;
  }

  decref_value : (m.pp_ref q + 65535) % 2 ^ 16 ≡ m.pp_ref q - 1
  decref_value = omega (arith, s.bounded q)

  -- `page_decref` of a page with references succeeds: it takes one reference away, and puts the
  -- page before the free ones when that was the last.
  pub page_decref-held :
      (c : Counts) × (ys : List ℕ) × (page_decref q m ≡ some (with_counts m c))
      × FreeList (with_counts m c) ys
      × ((p : ℕ) → c.refs p ≡ update m.pp_ref q (m.pp_ref q - 1) p)
      × ((p : ℕ) → 0 < c.refs p → c.links p ≡ none)
      × (ys ≡ (if m.pp_ref q == 1 then q ∷ xs else xs))
  page_decref-held = elim (Bool-cases ((m.pp_ref q + 65535) % 2 ^ 16 == 0)) [
    | inl e ↦
        let gone : (m.pp_ref q + 65535) % 2 ^ 16 ≡ 0 = ground arith in
        let back =
          (page_alloc-Allocates (decref q m) xs decref-FreeList).gives_back q
            (AllFree-ref m xs q s.free.all_free held) below (rw (==-refl q) gone)
            (s.unlinked q held) in
        (
          counts_of (freed (decref q m) q),
          q ∷ xs,
          unfold page_decref in rw e back.0,
          back.1,
          (λ p. ap (λ r. update m.pp_ref q r p) decref_value),
          last_unlinked gone,
          (let t : (m.pp_ref q == 1) ≡ true = ground (arith, e, s.bounded q) in rw t refl),
        )
    | inr e ↦ (
      counts_of (decref q m),
      xs,
      unfold page_decref in rw e refl,
      decref-FreeList,
      (λ p. ap (λ r. update m.pp_ref q r p) decref_value),
      kept_unlinked,
      (let t : (m.pp_ref q == 1) ≡ false = ground (arith, e, s.bounded q) in rw t refl),
    )
  ]
    where
      last_unlinked :
          (m.pp_ref q + 65535) % 2 ^ 16 ≡ 0
          → (p : ℕ) → 0 < (freed (decref q m) q).pp_ref p
          → (freed (decref q m) q).pp_link p ≡ none
      last_unlinked gone p h = elim (Bool-cases (p == q)) [
        | inl t ↦ absurd (ground (arith, gone))
        | inr t ↦ rw t (s.unlinked p (ground arith))
      ]

      kept_unlinked : (p : ℕ) → 0 < (decref q m).pp_ref p → (decref q m).pp_link p ≡ none
      kept_unlinked p h = elim (Bool-cases (p == q)) [
        | inl t ↦ let u : p ≡ q = ground arith in rw u (s.unlinked q held)
        | inr t ↦ s.unlinked p (ground arith)
      ]

-- Writing an entry of the table for page `k`, when the reference counts became `c`.
pub IsSpace-write :
    {m : Memory} {pgdir : ℕ} {xs : List ℕ} {pins : ℕ → ℕ} (s : IsSpace m pgdir xs pins) (k v : ℕ)
    (c : Counts) (ys : List ℕ) (pins' : ℕ → ℕ)
    → k < user_pages
    → m.words pgdir (k / 1024) ≢ 0
    → FreeList (with_counts m c) ys
    → 0 < pins' pgdir
    → ((i : ℕ) → i < user_tables → m.words pgdir i ≢ 0 → 0 < pins' (table m pgdir i))
    → (v ≢ 0 → v / 4096 < m.npages)
    → ((p : ℕ) → count (update (entry m pgdir) k v) p user_pages + pins' p ≤ c.refs p)
    → ((p : ℕ) → c.refs p < 2 ^ 16)
    → ((p : ℕ) → 0 < c.refs p → c.links p ≡ none)
    → IsSpace
        (set_word
          (with_counts m c)
          (record { page = table m pgdir (k / 1024); index = k % 1024 })
          v)
        pgdir
        ys
        pins'
unfolding set_word
IsSpace-write {m} {pgdir} {xs} {pins} s k v c ys pins' h e fl root tables below counted bounded
      unlinked =
    record {
      free = record {
        chain = fl.chain;
        distinct = fl.distinct;
        all_free =
            AllFree-same (with_counts m c) (set_word (with_counts m c) place v) ys refl (λ p. refl)
              fl.all_free;
      };
      small = s.small;
      root = s.root;
      root_pinned = root;
      table_below = λ i l n. rw same (s.table_below i l (rw same at n));
      table_other = λ i l n. rw same (s.table_other i l (rw same at n));
      table_pinned = λ i l n. rw same (tables i l (rw same at n));
      apart = λ i j li lj ni nj d. rw same (s.apart i j li lj (rw same at ni) (rw same at nj) d);
      page_below = λ j l n.
          let q = entry-set_word s k v h e j l in
          elim (Bool-cases (j == k)) [
            | inl t ↦ at_page j v (q ∙ rw t refl) n below
            | inr t ↦ at_page j (entry m pgdir j) (q ∙ rw t refl) n (s.page_below j l)
          ];
      counted = λ p.
          rw
            (count-same (entry (set_word (with_counts m c) place v) pgdir)
              (update (entry m pgdir) k v) p user_pages (entry-set_word s k v h e))
            (counted p);
      bounded = bounded;
      unlinked = unlinked;
    }
  where
    place : Place
    place = record { page = table m pgdir (k / 1024); index = k % 1024 }

    same : (set_word (with_counts m c) place v).words pgdir ≡ m.words pgdir
    same = directory_same s k v h e

    at_page :
        (j w : ℕ)
        → entry (set_word (with_counts m c) place v) pgdir j ≡ w
        → entry (set_word (with_counts m c) place v) pgdir j ≢ 0
        → (w ≢ 0 → w / 4096 < m.npages)
        → entry (set_word (with_counts m c) place v) pgdir j / 4096 < m.npages
    at_page j w f n g = subst (λ x. x / 4096 < m.npages) (sym f) (g (λ z. n (f ∙ z)))
