-- ===== src/Memory/Tables/Space/AddTable.antt =====
-- What the page table that `pgdir_walk` adds does to an address space.
use Prim.Native.Nat.{bit_or}
use tps_sistemas_operativos.Prelude.{
  ℕ, ◌+◌, ◌/◌, ◌%◌, ◌^◌, ◌≤◌, ◌<◌, ◌≡◌, ◌≢◌, refl, sym, ap, ap₂, ◌∙◌, subst, Bool, true, false,
  some, List, [], ◌∷◌, ◌==◌, if◌then◌else◌, update, arith, Bool-cases, inl, inr, ==-refl, ==_of_ne,
}
use tps_sistemas_operativos.Memory.{Memory, set_word, page2pa, pte_p, pte_w, pte_u}
use tps_sistemas_operativos.Memory.Bits.{bit_or_digit, bit_or-pgnum, bit_or-zero, bit_or-odd}
use tps_sistemas_operativos.Memory.Pages.{incref}
use tps_sistemas_operativos.Memory.Pages.FreeList.{
  FreeList, allocated, page_alloc-first, page_alloc-empty, allocated-FreeList,
}
use tps_sistemas_operativos.Memory.Tables.{add_table}
use tps_sistemas_operativos.Memory.Tables.Space.{
  user_tables, user_pages, entry, count, count-same, pin, table, IsSpace,
}
use tps_sistemas_operativos.Memory.Tables.Space.Counts.{AllFree-elsewhere}

-- the page of an entry that joins the address of a page with bits below it
pub page2pa-pgnum : (p perm : ℕ) → p < 2 ^ 20 → perm < 4096 → bit_or (page2pa p) perm / 4096 ≡ p
page2pa-pgnum p perm h k =
    let low : perm / 4096 ≡ 0 = omega arith in
    let high : page2pa p / 4096 ≡ p = omega arith in
    bit_or-pgnum (page2pa p) perm ∙ (ap₂ bit_or high low ∙ bit_or-zero p)

pub bit_or-keeps_pgnum : (w perm : ℕ) → perm < 4096 → bit_or w perm / 4096 ≡ w / 4096
bit_or-keeps_pgnum w perm k =
    let low : perm / 4096 ≡ 0 = omega arith in
    bit_or-pgnum w perm ∙ (ap (bit_or (w / 4096)) low ∙ bit_or-zero (w / 4096))

-- the entry for a new page table
abbrev pub pde : ℕ → ℕ
pde x = bit_or (bit_or (bit_or (page2pa x) pte_p) pte_w) pte_u

pde-pgnum : (x : ℕ) → x < 2 ^ 20 → pde x / 4096 ≡ x
pde-pgnum x h =
    bit_or-keeps_pgnum (bit_or (bit_or (page2pa x) pte_p) pte_w) pte_u (omega arith)
    ∙ (bit_or-keeps_pgnum (bit_or (page2pa x) pte_p) pte_w (omega arith)
        ∙ page2pa-pgnum x pte_p h (omega arith))

pde-ne-zero : (x : ℕ) → pde x ≢ 0
pde-ne-zero x e = absurd (
    omega (
      arith,
      e,
      bit_or_digit (bit_or (bit_or (page2pa x) pte_p) pte_w) pte_u,
      bit_or_digit (bit_or (page2pa x) pte_p) pte_w,
      bit_or-odd (page2pa x) pte_p (omega arith),
    ))

-- the memory after `x` became the table for slot `i`
abbrev pub tabled : Memory → ℕ → ℕ → ℕ → Memory
tabled m pgdir i x =
    set_word (incref x (allocated m x)) (record { page = pgdir; index = i }) (pde x)

pub add_table-first :
    (m : Memory) (pgdir i x : ℕ) (ys : List ℕ)
    → FreeList m (x ∷ ys)
    → add_table pgdir i m ≡ some (tabled m pgdir i x)
add_table-first m pgdir i x ys f = unfold add_table in rw (page_alloc-first m x ys f) refl

pub add_table-empty : (m : Memory) (pgdir i : ℕ) → FreeList m [] → add_table pgdir i m ≡ some m
add_table-empty m pgdir i f = unfold add_table in rw (page_alloc-empty m true f) refl

module _ {m : Memory} {pgdir x : ℕ} {ys : List ℕ} {pins : ℕ → ℕ} (s : IsSpace m pgdir (x ∷ ys) pins)
    (i : ℕ) (below : i < user_tables) (missing : m.words pgdir i ≡ 0) where
  unused : m.pp_ref x ≡ 0
  unused = s.free.all_free.1

  pinned_other : (p : ℕ) → 0 < pins p → p ≢ x
  pinned_other p h e = absurd (omega (arith, s.counted p, ap m.pp_ref e, unused))

  words_directory :
      (j : ℕ) → (tabled m pgdir i x).words pgdir j ≡ update (m.words pgdir) i (pde x) j
  words_directory j =
      unfold set_word in
      rw (==-refl pgdir) (rw (==_of_ne pgdir x (pinned_other pgdir s.root_pinned)) refl)

  words_new : (j : ℕ) → (tabled m pgdir i x).words x j ≡ 0
  words_new j =
      unfold set_word in
      rw (==_of_ne x pgdir (λ e. pinned_other pgdir s.root_pinned (sym e))) (rw (==-refl x) refl)

  words_other : (t j : ℕ) → t ≢ pgdir → t ≢ x → (tabled m pgdir i x).words t j ≡ m.words t j
  words_other t j n k = unfold set_word in rw (==_of_ne t pgdir n) (rw (==_of_ne t x k) refl)

  pub entry-tabled : (j : ℕ) → j < user_pages → entry (tabled m pgdir i x) pgdir j ≡ entry m pgdir j
  entry-tabled j l = elim (Bool-cases (j / 1024 == i)) [
    | inl t ↦
        let q : j / 1024 ≡ i = ground arith in
        let new : (tabled m pgdir i x).words pgdir (j / 1024) ≡ pde x =
          words_directory (j / 1024) ∙ rw t refl in
        let z : (pde x == 0) ≡ false = ==_of_ne (pde x) 0 (pde-ne-zero x) in
        let old : m.words pgdir (j / 1024) ≡ 0 = ap (m.words pgdir) q ∙ missing in
        rw new (
          rw z (
            rw (pde-pgnum x (omega (arith, s.small, s.free.all_free.0)))
              (words_new (j % 1024) ∙ rw old refl)))
    | inr t ↦
        let same : (tabled m pgdir i x).words pgdir (j / 1024) ≡ m.words pgdir (j / 1024) =
          words_directory (j / 1024) ∙ rw t refl in
        rw same (elim (Bool-cases (m.words pgdir (j / 1024) == 0)) [
          | inl z ↦ rw z refl
          | inr z ↦
              let n : m.words pgdir (j / 1024) ≢ 0 = ground arith in
              rw z (
                words_other (table m pgdir (j / 1024)) (j % 1024)
                  (s.table_other (j / 1024) (omega arith) n)
                  (pinned_other (table m pgdir (j / 1024))
                    (s.table_pinned (j / 1024) (omega arith) n)))
        ])
  ]

  pub tabled-has_table : (tabled m pgdir i x).words pgdir i ≢ 0
  tabled-has_table e = pde-ne-zero x (sym (words_directory i ∙ rw (==-refl i) refl) ∙ e)

  -- an entry of the directory is the new one, or the old one
  slot :
      (j : ℕ) (P : ℕ → Type 0)
      → (j ≡ i → P (pde x))
      → (j ≢ i → P (m.words pgdir j))
      → P ((tabled m pgdir i x).words pgdir j)
  slot j P new old = subst P (sym (words_directory j)) (elim (Bool-cases (j == i)) [
    | inl t ↦ rw t (new (ground arith))
    | inr t ↦ rw t (old (ground arith))
  ])

  new_page : pde x / 4096 ≡ x
  new_page = pde-pgnum x (omega (arith, s.small, s.free.all_free.0))

  pin_kept : (p : ℕ) → 0 < pins p → 0 < pin pins x p
  pin_kept p h = ground arith

  tabled-apart :
      (j k : ℕ)
      → j < user_tables
      → k < user_tables
      → (tabled m pgdir i x).words pgdir j ≢ 0
      → (tabled m pgdir i x).words pgdir k ≢ 0
      → j ≢ k
      → table (tabled m pgdir i x) pgdir j ≢ table (tabled m pgdir i x) pgdir k
  tabled-apart j k lj lk =
      slot j
        (λ w.
          w ≢ 0
          → (tabled m pgdir i x).words pgdir k ≢ 0
          → j ≢ k
          → w / 4096 ≢ table (tabled m pgdir i x) pgdir k)
        (λ ji n.
          slot k (λ v. v ≢ 0 → j ≢ k → pde x / 4096 ≢ v / 4096)
            (λ ki nv d. absurd (d (ji ∙ sym ki)))
            (λ o nv d e.
              pinned_other (table m pgdir k) (s.table_pinned k lk nv) (sym e ∙ new_page)))
        (λ o n.
          slot k (λ v. v ≢ 0 → j ≢ k → table m pgdir j ≢ v / 4096)
            (λ ki nv d e. pinned_other (table m pgdir j) (s.table_pinned j lj n) (e ∙ new_page))
            (λ o' nv d. s.apart j k lj lk n nv d))

  tabled-counted :
      (p : ℕ)
      → count (entry m pgdir) p user_pages + pin pins x p
        ≤ update m.pp_ref x ((m.pp_ref x + 1) % 2 ^ 16) p
  tabled-counted p = elim (Bool-cases (p == x)) [
    | inl t ↦
        let q : p ≡ x = ground arith in
        rw t (omega (arith, s.counted p, ap pins q, ap m.pp_ref q, unused))
    | inr t ↦ rw t (s.counted p)
  ]

  -- The new table takes the first free page, and no entry of the address space changes.
  pub IsSpace-tabled : IsSpace (tabled m pgdir i x) pgdir ys (pin pins x)
  unfolding set_word
  IsSpace-tabled = record {
    free = record {
      chain = (allocated-FreeList m x ys s.free).chain;
      distinct = s.free.distinct.1;
      all_free =
          AllFree-elsewhere (allocated m x) (tabled m pgdir i x) x ys refl
            (λ p n. rw (==_of_ne p x n) refl) s.free.distinct.0
            (allocated-FreeList m x ys s.free).all_free;
    };
    small = s.small;
    root = s.root;
    root_pinned = pin_kept pgdir s.root_pinned;
    table_below = λ j l.
        slot j (λ w. w ≢ 0 → w / 4096 < m.npages) (λ o n. rw new_page s.free.all_free.0)
          (λ o n. s.table_below j l n);
    table_other = λ j l.
        slot j (λ w. w ≢ 0 → w / 4096 ≢ pgdir)
          (λ o n e. pinned_other pgdir s.root_pinned (sym e ∙ new_page))
          (λ o n. s.table_other j l n);
    table_pinned = λ j l.
        slot j (λ w. w ≢ 0 → 0 < pin pins x (w / 4096))
          (λ o n. rw new_page (rw (==-refl x) (omega arith)))
          (λ o n. pin_kept (table m pgdir j) (s.table_pinned j l n));
    apart = tabled-apart;
    page_below =
        λ j l. subst (λ w. w ≢ 0 → w / 4096 < m.npages) (sym (entry-tabled j l)) (s.page_below j l);
    counted = λ p.
        rw (count-same (entry (tabled m pgdir i x) pgdir) (entry m pgdir) p user_pages entry-tabled)
          (tabled-counted p);
    bounded = λ p. ground (arith, s.bounded p);
    unlinked = λ p h. elim (Bool-cases (p == x)) [
      | inl t ↦ rw t refl
      | inr t ↦ rw t (
          s.unlinked p
            (subst (λ (b : Bool). 0 < (if b then (m.pp_ref x + 1) % 2 ^ 16 else m.pp_ref p)) t h))
    ];
  }
