-- ===== src/Memory/Tables/Space/Fresh.antt =====
-- An address space while a page is taken from the list of free pages.
use tps_sistemas_operativos.Prelude.{
  ℕ, ◌/◌, ◌<◌, ◌≡◌, ◌≢◌, refl, sym, ap, subst, false, List, ◌∷◌, ◌==◌, arith, Bool-cases, inl, inr,
  ==-refl, ==_of_ne,
}
use tps_sistemas_operativos.Memory.{Memory}
use tps_sistemas_operativos.Memory.Pages.FreeList.{allocated, allocated-FreeList}
use tps_sistemas_operativos.Memory.Tables.Space.{user_pages, entry, count-same, table, IsSpace}
use tps_sistemas_operativos.Memory.Tables.Space.Insert.{IsMappable}

module _ {m : Memory} {pgdir x : ℕ} {ys : List ℕ} {pins : ℕ → ℕ}
    (s : IsSpace m pgdir (x ∷ ys) pins) where
  in_use : (p : ℕ) → 0 < pins p → p ≢ x
  in_use p h e = absurd (omega (arith, s.counted p, ap m.pp_ref e, s.free.all_free.1))

  pub directory_kept : (allocated m x).words pgdir ≡ m.words pgdir
  directory_kept = rw (==_of_ne pgdir x (in_use pgdir s.root_pinned)) refl

  pub entry-allocated : (j : ℕ) → j < user_pages → entry (allocated m x) pgdir j ≡ entry m pgdir j
  entry-allocated j l = rw directory_kept (elim (Bool-cases (m.words pgdir (j / 1024) == 0)) [
    | inl z ↦ rw z refl
    | inr z ↦
        let n : m.words pgdir (j / 1024) ≢ 0 = ground arith in
        let other : (table m pgdir (j / 1024) == x) ≡ false =
          ==_of_ne (table m pgdir (j / 1024)) x
            (in_use (table m pgdir (j / 1024)) (s.table_pinned (j / 1024) (omega arith) n)) in
        rw z (rw other refl)
  ])

  pub IsSpace-allocated : IsSpace (allocated m x) pgdir ys pins
  IsSpace-allocated = record {
    free = allocated-FreeList m x ys s.free;
    small = s.small;
    root = s.root;
    root_pinned = s.root_pinned;
    table_below = λ i l n. rw directory_kept (s.table_below i l (rw directory_kept at n));
    table_other = λ i l n. rw directory_kept (s.table_other i l (rw directory_kept at n));
    table_pinned = λ i l n. rw directory_kept (s.table_pinned i l (rw directory_kept at n));
    apart = λ i j li lj ni nj d.
        rw directory_kept (s.apart i j li lj (rw directory_kept at ni) (rw directory_kept at nj) d);
    page_below = λ j l.
        subst (λ w. w ≢ 0 → w / 4096 < m.npages) (sym (entry-allocated j l)) (s.page_below j l);
    counted = λ p.
        rw (count-same (entry (allocated m x) pgdir) (entry m pgdir) p user_pages entry-allocated)
          (s.counted p);
    bounded = s.bounded;
    unlinked =
        λ p h. elim (Bool-cases (p == x)) [ inl t ↦ rw t refl | inr t ↦ rw t (s.unlinked p h) ];
  }

  -- A page that was just taken can be mapped.
  pub allocated-IsMappable : IsMappable (allocated m x) ys x
  allocated-IsMappable = record {
    below = s.free.all_free.0;
    not_free = s.free.distinct.0;
    not_linked = rw (==-refl x) refl;
    countable = omega (arith, s.free.all_free.1);
  }
