-- ===== src/Memory/Tables/Space/Walk.antt =====
-- What `pgdir_walk` does to an address space.
use tps_sistemas_operativos.Prelude.{
  ℕ, ◌/◌, ◌≤◌, ◌<◌, ◌≡◌, ◌≢◌, refl, subst, true, none, some, List, [], ◌∷◌, ◌==◌, arith, Bool-cases,
  inl, inr, ◌⊎◌, ==_of_ne,
}
use tps_sistemas_operativos.Memory.{Memory, set_word, pdx, utop}
use tps_sistemas_operativos.Memory.Pages.FreeList.{NotIn, FreeList}
use tps_sistemas_operativos.Memory.Tables.{pgdir_walk}
use tps_sistemas_operativos.Memory.Tables.Space.{user_pages, entry, pin, IsSpace}
use tps_sistemas_operativos.Memory.Tables.Space.AddTable.{
  tabled, add_table-first, add_table-empty, entry-tabled, IsSpace-tabled, tabled-has_table,
}
use tps_sistemas_operativos.Memory.Tables.Space.Remove.{place_of, entry_in-none, entry_in-some}

-- What is left after a walk that may add a table: the same address space, with a table.
pub record Walks (m : Memory) (pgdir : ℕ) (xs : List ℕ) (pins : ℕ → ℕ) (va : ℕ) : Type 0 where
  pub after : Memory
  pub free_after : List ℕ
  pub pins_after : ℕ → ℕ
  pub walks : pgdir_walk pgdir va true m ≡ some (some (place_of after pgdir va), after)
  pub space_after : IsSpace after pgdir free_after pins_after
  pub has_table : after.words pgdir (va / 4096 / 1024) ≢ 0
  pub entries : (j : ℕ) → j < user_pages → entry after pgdir j ≡ entry m pgdir j
  pub refs_kept : (p : ℕ) → NotIn p xs → after.pp_ref p ≡ m.pp_ref p
  pub links_kept : (p : ℕ) → NotIn p xs → after.pp_link p ≡ m.pp_link p
  pub still_used : (p : ℕ) → NotIn p xs → NotIn p free_after
  pub pins_kept : (p : ℕ) → pins p ≤ pins_after p
  pub npages_same : after.npages ≡ m.npages

module _ {m : Memory} {pgdir : ℕ} {xs : List ℕ} {pins : ℕ → ℕ} (s : IsSpace m pgdir xs pins)
    (va : ℕ) (user : va < utop) where
  walk_index : pdx va ≡ va / 4096 / 1024
  walk_index = omega arith

  -- a walk where there is a table
  pgdir_walk-found :
      m.words pgdir (va / 4096 / 1024) ≢ 0
      → pgdir_walk pgdir va true m ≡ some (some (place_of m pgdir va), m)
  pgdir_walk-found e =
      unfold pgdir_walk in
      rw walk_index
        (rw (==_of_ne (m.words pgdir (va / 4096 / 1024)) 0 e) (rw (entry_in-some s va user e) refl))

  Walks-found : m.words pgdir (va / 4096 / 1024) ≢ 0 → Walks m pgdir xs pins va
  Walks-found e = record {
    after = m;
    free_after = xs;
    pins_after = pins;
    walks = pgdir_walk-found e;
    space_after = s;
    has_table = e;
    entries = λ j l. refl;
    refs_kept = λ p n. refl;
    links_kept = λ p n. refl;
    still_used = λ p n. n;
    pins_kept = λ p. omega arith;
    npages_same = refl;
  }

  -- `pgdir_walk` finds no table and no page to make one of.
  pub pgdir_walk-none :
      m.words pgdir (va / 4096 / 1024) ≡ 0 → xs ≡ [] → pgdir_walk pgdir va true m ≡ some (none, m)
  pgdir_walk-none e n =
      unfold pgdir_walk in
      rw walk_index (
        rw missing (
          rw (add_table-empty m pgdir (va / 4096 / 1024) (subst (FreeList m) n s.free))
            (rw (entry_in-none s va user e) refl)))
    where
      missing : (m.words pgdir (va / 4096 / 1024) == 0) ≡ true
      missing = ground (arith, e)

module _ {m : Memory} {pgdir x : ℕ} {ys : List ℕ} {pins : ℕ → ℕ} (s : IsSpace m pgdir (x ∷ ys) pins)
    (va : ℕ) (user : va < utop) (e : m.words pgdir (va / 4096 / 1024) ≡ 0) where
  abbrev new : Memory
  new = tabled m pgdir (va / 4096 / 1024) x

  new-IsSpace : IsSpace new pgdir ys (pin pins x)
  new-IsSpace = IsSpace-tabled s (va / 4096 / 1024) (omega (arith, user)) e

  new_table : new.words pgdir (va / 4096 / 1024) ≢ 0
  new_table = tabled-has_table s (va / 4096 / 1024) (omega (arith, user)) e

  pgdir_walk-new : pgdir_walk pgdir va true m ≡ some (some (place_of new pgdir va), new)
  pgdir_walk-new =
      unfold pgdir_walk in
      rw (walk_index s va user) (
        rw missing (
          rw (add_table-first m pgdir (va / 4096 / 1024) x ys s.free)
            (rw (entry_in-some new-IsSpace va user new_table) refl)))
    where
      missing : (m.words pgdir (va / 4096 / 1024) == 0) ≡ true
      missing = ground (arith, e)

  Walks-new : Walks m pgdir (x ∷ ys) pins va
  Walks-new = record {
    after = new;
    free_after = ys;
    pins_after = pin pins x;
    walks = pgdir_walk-new;
    space_after = new-IsSpace;
    has_table = new_table;
    entries = entry-tabled s (va / 4096 / 1024) (omega (arith, user)) e;
    refs_kept = λ p n. unfold set_word in rw (==_of_ne p x n.0) refl;
    links_kept = λ p n. unfold set_word in rw (==_of_ne p x n.0) refl;
    still_used = λ p n. n.1;
    pins_kept = λ p. ground arith;
    npages_same = unfold set_word in refl;
  }

-- A walk that may add a table succeeds when there is a table or a free page.
pub pgdir_walk-Walks :
    {m : Memory} {pgdir : ℕ} (xs : List ℕ) {pins : ℕ → ℕ} (s : IsSpace m pgdir xs pins) (va : ℕ)
    → va < utop
    → (m.words pgdir (va / 4096 / 1024) ≢ 0) ⊎ (xs ≢ [])
    → Walks m pgdir xs pins va
pgdir_walk-Walks {m} {pgdir} [] s va user (inl t) = Walks-found s va user t
pgdir_walk-Walks {m} {pgdir} [] s va user (inr n) = absurd (n refl)
pgdir_walk-Walks {m} {pgdir} (x ∷ ys) s va user h =
    elim (Bool-cases (m.words pgdir (va / 4096 / 1024) == 0)) [
      | inl z ↦ Walks-new s va user (ground arith)
      | inr z ↦ Walks-found s va user (ground arith)
    ]
