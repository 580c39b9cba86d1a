-- ===== src/Machine/Destroy/Flush.antt =====
-- What the inner loop of `env_free` does to an address space.
use tps_sistemas_operativos.Prelude.{
  ℕ, zero, suc, ◌+◌, ◌*◌, ◌/◌, ◌%◌, ◌≤◌, ◌<◌, ◌≡◌, ◌≢◌, refl, sym, ap, ◌∙◌, Bool, true, false,
  Option, some, List, ◌==◌, ◌&&◌, ◌||◌, leb, ltb, if◌then◌else◌, bind-some, update, arith,
  Bool-cases, inl, inr, ==_of_ne,
}
use tps_sistemas_operativos.Memory.{Memory, utop, has_p}
use tps_sistemas_operativos.Memory.Tables.{page_remove}
use tps_sistemas_operativos.Memory.Tables.Space.{
  user_tables, user_pages, entry, count, count-same, count-update, table, IsSpace,
}
use tps_sistemas_operativos.Memory.Tables.Space.Remove.{
  Removes, Collects-Removes, page_remove-Removes,
}
use tps_sistemas_operativos.Memory.Pages.Collect.{Collects, Collects-same, Collects-then}
use tps_sistemas_operativos.Machine.Destroy.{flush_table}

-- Every entry below `UTOP`, of the directory or of a table, is 0 or has the bit P.
pub record AllPresent (m : Memory) (pgdir : ℕ) : Type 0 where
  pub tables_present :
      (i : ℕ) → i < user_tables → m.words pgdir i ≢ 0 → has_p (m.words pgdir i) ≡ true
  pub pages_present :
      (j : ℕ) → j < user_pages → entry m pgdir j ≢ 0 → has_p (entry m pgdir j) ≡ true

-- the references of the user part to a page: from tables and from the directory
abbrev pub mapped : Memory → ℕ → ℕ → ℕ
mapped m pgdir p = count (entry m pgdir) p user_pages + count (m.words pgdir) p user_tables

-- The state on the way from `m`: the references that went away are those that the user part lost.
pub record Flushes (m : Memory) (pgdir : ℕ) (xs : List ℕ) (pins : ℕ → ℕ) (done : ℕ → Bool)
    (after : Memory) : Type 0 where
  pub free_after : List ℕ
  pub space : IsSpace after pgdir free_after pins
  pub entries :
      (j : ℕ) → j < user_pages → entry after pgdir j ≡ (if done j then 0 else entry m pgdir j)
  pub directory : after.words pgdir ≡ m.words pgdir
  pub npages_same : after.npages ≡ m.npages
  pub collects : Collects m.pp_ref xs after.pp_ref free_after
  pub balanced : (p : ℕ) → after.pp_ref p + mapped m pgdir p ≡ m.pp_ref p + mapped after pgdir p

-- Is this one of the `n` pages from `first` on?
abbrev pub among : ℕ → ℕ → ℕ → Bool
among first n j = leb first j && ltb j (first + n)

module _ {m : Memory} {pgdir : ℕ} {xs : List ℕ} {pins : ℕ → ℕ} where
  -- one entry that is removed
  removed-balanced :
      (va : ℕ) (r : Removes m pgdir xs pins va)
      → va < utop
      → (p : ℕ) → r.after.pp_ref p + mapped m pgdir p ≡ m.pp_ref p + mapped r.after pgdir p
  removed-balanced va r user p =
      let change = count-update (entry m pgdir) (va / 4096) 0 p user_pages (omega (arith, user)) in
      let same =
        count-same (entry r.after pgdir) (update (entry m pgdir) (va / 4096) 0) p user_pages
          r.entries in
      let dir : count (r.after.words pgdir) p user_tables ≡ count (m.words pgdir) p user_tables =
        ap (λ f. count f p user_tables) r.directory in
      omega (arith, change, same, dir, r.refs p)

  -- Nothing that is still there is new.
  pub AllPresent-flushed :
      {done : ℕ → Bool} {after : Memory} (f : Flushes m pgdir xs pins done after)
      → AllPresent m pgdir
      → AllPresent after pgdir
  AllPresent-flushed {done} {after} f a = record {
    tables_present = λ i l. rw f.directory (a.tables_present i l);
    pages_present = λ j l n. elim (Bool-cases (done j)) [
      | inl t ↦ absurd (n (f.entries j l ∙ rw t refl))
      | inr t ↦
          let same : entry after pgdir j ≡ entry m pgdir j = f.entries j l ∙ rw t refl in
          ap has_p same ∙ a.pages_present j l (λ z. n (same ∙ z))
    ];
  }

  pub Flushes-then :
      {d1 d2 d : ℕ → Bool} {a b : Memory} (f : Flushes m pgdir xs pins d1 a)
      (g : Flushes a pgdir f.free_after pins d2 b)
      → ((j : ℕ) → d j ≡ (d1 j || d2 j))
      → Flushes m pgdir xs pins d b
  Flushes-then {d1} {d2} {d} {a} {b} f g e = record {
    free_after = g.free_after;
    space = g.space;
    entries = λ j l.
        g.entries j l
        ∙ rw (e j) (elim (Bool-cases (d2 j)) [
          | inl t ↦ rw t (either j)
          | inr t ↦ rw t (f.entries j l ∙ first j)
        ]);
    directory = g.directory ∙ f.directory;
    npages_same = g.npages_same ∙ f.npages_same;
    collects = Collects-then f.collects g.collects;
    balanced = λ p. omega (arith, f.balanced p, g.balanced p);
  }
    where
      either : (j : ℕ) → 0 ≡ (if d1 j || true then 0 else entry m pgdir j)
      either j = elim (Bool-cases (d1 j)) [ inl t ↦ rw t refl | inr t ↦ rw t refl ]

      first :
          (j : ℕ)
          → (if d1 j then 0 else entry m pgdir j) ≡ (if d1 j || false then 0 else entry m pgdir j)
      first j = elim (Bool-cases (d1 j)) [ inl t ↦ rw t refl | inr t ↦ rw t refl ]

-- the body of the inner loop, for the page `k`
module _ {m : Memory} {pgdir : ℕ} {xs : List ℕ} {pins : ℕ → ℕ} (s : IsSpace m pgdir xs pins)
    (a : AllPresent m pgdir) where
  abbrev flush_page : ℕ → Option Memory
  flush_page k =
      if has_p (entry m pgdir k)
      then page_remove pgdir (k / 1024 * 4194304 + k % 1024 * 4096) m
      else some m

  flush_page-Flushes :
      (k : ℕ)
      → k < user_pages
      → (after : Memory) × (flush_page k ≡ some after) × Flushes m pgdir xs pins (λ j. j == k) after
  flush_page-Flushes k h = elim (Bool-cases (has_p (entry m pgdir k))) [
    | inl t ↦
        let r = page_remove-Removes s (k / 1024 * 4194304 + k % 1024 * 4096) (omega arith) in
        (
          r.after,
          rw t r.removes,
          record {
            free_after = r.free_after;
            space = r.space_after;
            entries = λ j l. r.entries j l ∙ ap (λ x. update (entry m pgdir) x 0 j) page;
            directory = r.directory;
            npages_same = r.npages_same;
            collects = Collects-Removes r;
            balanced = removed-balanced (k / 1024 * 4194304 + k % 1024 * 4096) r (omega arith);
          },
        )
    | inr t ↦ (
      m,
      rw t refl,
      record {
        free_after = xs;
        space = s;
        entries = λ j l. kept t j;
        directory = refl;
        npages_same = refl;
        collects = Collects-same m.pp_ref xs;
        balanced = λ p. refl;
      },
    )
  ]
    where
      page : (k / 1024 * 4194304 + k % 1024 * 4096) / 4096 ≡ k
      page = omega arith

      gone : has_p (entry m pgdir k) ≡ false → (j : ℕ) → j ≡ k → entry m pgdir j ≡ 0
      gone t j q = elim (Bool-cases (entry m pgdir k == 0)) [
        | inl z ↦ ap (entry m pgdir) q ∙ (ground (arith, z))
        | inr z ↦ absurd (ground (arith, sym t ∙ a.pages_present k h (ground arith)))
      ]

      kept :
          has_p (entry m pgdir k) ≡ false
          → (j : ℕ) → entry m pgdir j ≡ (if j == k then 0 else entry m pgdir j)
      kept t j = elim (Bool-cases (j == k)) [
        | inl u ↦ rw u (gone t j (ground arith))
        | inr u ↦ rw u refl
      ]

module _ {m : Memory} {pgdir : ℕ} {xs : List ℕ} {pins : ℕ → ℕ} (s : IsSpace m pgdir xs pins)
    (a : AllPresent m pgdir) (pdeno pteno : ℕ) (low : pteno < 1024) where
  abbrev page_number : ℕ
  page_number = pdeno * 1024 + pteno

  flush_table-step :
      (n pt : ℕ) (after end : Memory)
      → m.words pt pteno ≡ entry m pgdir page_number
      → flush_page s a page_number ≡ some after
      → flush_table n (pteno + 1) pgdir pdeno pt after ≡ some end
      → flush_table (suc n) pteno pgdir pdeno pt m ≡ some end
  flush_table-step n pt after end w f g = unfold flush_table in bind-some _ (here ∙ f) ∙ g
    where
      address :
          pdeno * 4194304 + pteno * 4096 ≡ page_number / 1024 * 4194304 + page_number % 1024 * 4096
      address = omega arith

      here :
          (if has_p (m.words pt pteno)
            then page_remove pgdir (pdeno * 4194304 + pteno * 4096) m
            else some m)
          ≡ flush_page s a page_number
      here = rw w (rw address refl)

  word-entry :
      m.words pgdir pdeno ≢ 0 → m.words (table m pgdir pdeno) pteno ≡ entry m pgdir page_number
  word-entry n =
      let d : page_number / 1024 ≡ pdeno = omega arith in
      let i : page_number % 1024 ≡ pteno = omega arith in
      rw d (rw i (rw (==_of_ne (m.words pgdir pdeno) 0 n) refl))

-- The inner loop of `env_free` never panics, and clears the entries of a table one by one.
pub flush_table-Flushes :
    (n pteno pdeno : ℕ) {m : Memory} {pgdir : ℕ} {xs : List ℕ} {pins : ℕ → ℕ}
    (s : IsSpace m pgdir xs pins) (a : AllPresent m pgdir)
    → pdeno < user_tables
    → pteno + n ≤ 1024
    → m.words pgdir pdeno ≢ 0
    → (after : Memory) × (flush_table n pteno pgdir pdeno (table m pgdir pdeno) m ≡ some after)
      × Flushes m pgdir xs pins (among (pdeno * 1024 + pteno) n) after
flush_table-Flushes zero pteno pdeno {m} {pgdir} {xs} s a h l e = (
  m,
  unfold flush_table in refl,
  record {
    free_after = xs;
    space = s;
    entries = λ j q. let t : among (pdeno * 1024 + pteno) 0 j ≡ false = ground arith in rw t refl;
    directory = refl;
    npages_same = refl;
    collects = Collects-same m.pp_ref xs;
    balanced = λ p. refl;
  },
)
flush_table-Flushes (suc n) pteno pdeno {m} {pgdir} {xs} s a h l e =
    let low : pteno < 1024 = omega arith in
    let k = pdeno * 1024 + pteno in
    let (m1, first, f) = flush_page-Flushes s a k (omega arith) in
    let same : m1.words pgdir pdeno ≡ m.words pgdir pdeno = ap (λ w. w pdeno) f.directory in
    let (m2, rest, g) =
      flush_table-Flushes n (pteno + 1) pdeno f.space (AllPresent-flushed f a) h (omega arith)
        (λ z. e (sym same ∙ z)) in
    let pt : table m1 pgdir pdeno ≡ table m pgdir pdeno = ap (λ w. w / 4096) same in
    (
      m2,
      flush_table-step s a pdeno pteno low n (table m pgdir pdeno) m1 m2
          (word-entry s a pdeno pteno low e) first
          (ap (λ t. flush_table n (pteno + 1) pgdir pdeno t m1) (sym pt) ∙ rest),
      Flushes-then f g (λ j. ground arith),
    )
