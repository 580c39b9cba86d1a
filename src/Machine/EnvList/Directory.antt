-- ===== src/Machine/EnvList/Directory.antt =====
-- The address space that `env_setup_vm` makes.
use tps_sistemas_operativos.Prelude.{
  ℕ, zero, suc, ◌/◌, ◌^◌, ◌≤◌, ◌<◌, ◌≡◌, ◌≢◌, refl, ◌∙◌, true, none, List, ◌∷◌, ◌==◌, if◌then◌else◌,
  arith, Bool-cases, inl, inr, ==-refl, ==_of_ne,
}
use tps_sistemas_operativos.Memory.{Memory}
use tps_sistemas_operativos.Memory.Pages.{incref}
use tps_sistemas_operativos.Memory.Pages.FreeList.{FreeList, allocated, allocated-FreeList}
use tps_sistemas_operativos.Memory.Tables.Space.{
  user_tables, user_pages, entry, hit, count, IsSpace,
}
use tps_sistemas_operativos.Memory.Tables.Space.Counts.{AllFree-elsewhere}
use tps_sistemas_operativos.Machine.{Machine, copy_directory, uvpt_index}

-- A machine that can make an environment: the page `p` is the first free one, and the kernel's
-- directory maps nothing below `UTOP`.
pub record HasPage (m : Machine) (p : ℕ) (ps : List ℕ) : Type 0 where
  pub free : FreeList m.memory (p ∷ ps)
  pub small : m.memory.npages ≤ 2 ^ 20
  pub bounded : (q : ℕ) → m.memory.pp_ref q < 2 ^ 16
  pub unlinked : (q : ℕ) → 0 < m.memory.pp_ref q → m.memory.pp_link q ≡ none
  pub no_user_tables : (i : ℕ) → i < user_tables → m.memory.words m.kern_pgdir i ≡ 0
  pub kernel_page : m.kern_pgdir ≢ p

abbrev pub new_memory : Machine → ℕ → Memory
new_memory m p = incref p (copy_directory m.kern_pgdir p (allocated m.memory p))

abbrev pub only : ℕ → ℕ → ℕ
only p q = if q == p then 1 else 0

pub count-none : (f : ℕ → ℕ) (p n : ℕ) → ((k : ℕ) → k < n → f k ≡ 0) → count f p n ≡ 0
unfolding count
count-none f p zero h = refl
count-none f p (suc n) h = omega (arith, count-none f p n (λ k l. h k (omega arith)), none_here)
  where
    none_here : hit (f n) p ≡ 0
    none_here = rw (h n (omega arith)) refl

module _ {m : Machine} {p : ℕ} {ps : List ℕ} (g : HasPage m p ps) where
  abbrev fresh : Memory
  fresh = new_memory m p

  pub directory_word : (i : ℕ) → i ≢ uvpt_index → fresh.words p i ≡ m.memory.words m.kern_pgdir i
  directory_word i n =
      rw (==-refl p)
        (rw (==_of_ne i uvpt_index n) (rw (==_of_ne m.kern_pgdir p g.kernel_page) refl))

  no_tables : (i : ℕ) → i < user_tables → fresh.words p i ≡ 0
  no_tables i h = directory_word i (λ q. absurd (omega (arith, q, h))) ∙ g.no_user_tables i h

  no_entries : (k : ℕ) → k < user_pages → entry fresh p k ≡ 0
  no_entries k h =
      let t : (fresh.words p (k / 1024) == 0) ≡ true =
        ground (arith, no_tables (k / 1024) (omega arith)) in
      rw t refl

  fresh-FreeList : FreeList fresh ps
  fresh-FreeList =
      let f = allocated-FreeList m.memory p ps g.free in
      record {
        chain = f.chain;
        distinct = f.distinct;
        all_free =
            AllFree-elsewhere (allocated m.memory p) fresh p ps refl
              (λ q n. rw (==_of_ne q p n) refl) g.free.distinct.0 f.all_free;
      }

  fresh_refs : (q : ℕ) → fresh.pp_ref q ≡ (if q == p then 1 else m.memory.pp_ref q)
  fresh_refs q = elim (Bool-cases (q == p)) [
    | inl t ↦ rw t (rw g.free.all_free.1 refl)
    | inr t ↦ rw t refl
  ]

  pub fresh-IsSpace : IsSpace fresh p ps (only p)
  fresh-IsSpace = record {
    free = fresh-FreeList;
    small = g.small;
    root = g.free.all_free.0;
    root_pinned = rw (==-refl p) (omega arith);
    table_below = λ i l n. absurd (n (no_tables i l));
    table_other = λ i l n. absurd (n (no_tables i l));
    table_pinned = λ i l n. absurd (n (no_tables i l));
    apart = λ i j li lj ni nj d. absurd (ni (no_tables i li));
    page_below = λ k l n. absurd (n (no_entries k l));
    counted = λ q. ground (arith, fresh_refs q, count-none (entry fresh p) q user_pages no_entries);
    bounded = λ q. ground (arith, fresh_refs q, g.bounded q);
    unlinked = λ q h. elim (Bool-cases (q == p)) [
      | inl t ↦ rw t refl
      | inr t ↦ rw t (g.unlinked q (ground (arith, fresh_refs q)))
    ];
  }
