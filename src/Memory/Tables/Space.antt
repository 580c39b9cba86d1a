-- ===== src/Memory/Tables/Space.antt =====
-- The user part of an address space as a function from page numbers to entries, and the count of
-- the references to each page.
pub mod Counts
pub mod Remove
pub mod AddTable
pub mod Walk
pub mod Insert
pub mod Fresh
use tps_sistemas_operativos.Prelude.{
  ℕ, zero, suc, ◌+◌, ◌-◌, ◌*◌, ◌/◌, ◌%◌, ◌^◌, ◌≤◌, ◌<◌, ◌≡◌, ◌≢◌, refl, sym, ap, ap₂, ◌∙◌, subst,
  Bool, true, false, Option, none, some, List, [], ◌∷◌, ◌==◌, ltb, if◌then◌else◌, ◌>>=◌, update,
  arith, Bool-cases, inl, inr, ◌⊎◌, ==-refl, ==_of_ne,
}
use tps_sistemas_operativos.Memory.{Memory, Place, set_word}
use tps_sistemas_operativos.Memory.Pages.FreeList.{NotIn, AllFree, FreeList}

-- the tables and the pages below `UTOP`
abbrev pub user_tables : ℕ
user_tables = 955

abbrev pub user_pages : ℕ
user_pages = 977920

-- the entry for a page of the address space, or 0 where there is no table
abbrev pub entry : Memory → ℕ → ℕ → ℕ
entry m pgdir k =
    if m.words pgdir (k / 1024) == 0
    then 0
    else m.words (m.words pgdir (k / 1024) / 4096) (k % 1024)

-- Does an entry map this page?
abbrev pub hit : ℕ → ℕ → ℕ
hit w p = if w == 0 then 0 else if w / 4096 == p then 1 else 0

-- how many of the first `n` entries map a page
unfoldable pub count : (ℕ → ℕ) → ℕ → ℕ → ℕ
count f p zero = 0
count f p (suc n) = hit (f n) p + count f p n

pub count-same : (f g : ℕ → ℕ) (p n : ℕ) → ((k : ℕ) → k < n → f k ≡ g k) → count f p n ≡ count g p n
unfolding count
count-same f g p zero h = refl
count-same f g p (suc n) h =
    ap₂ ◌+◌ (ap (λ w. hit w p) (h n (omega arith))) (count-same f g p n (λ k l. h k (omega arith)))

count-update_above : (f : ℕ → ℕ) (k v p n : ℕ) → n ≤ k → count (update f k v) p n ≡ count f p n
count-update_above f k v p n h =
    count-same (update f k v) f p n (λ j l. let e : (j == k) ≡ false = ground arith in rw e refl)

pub count-update :
    (f : ℕ → ℕ) (k v p n : ℕ)
    → k < n
    → count (update f k v) p n + hit (f k) p ≡ count f p n + hit v p
count-update f k v p zero h = absurd (omega arith)
count-update f k v p (suc n) h = elim (Bool-cases (n == k)) [
  | inl e ↦ let q : n ≡ k = ground arith in here q
  | inr e ↦ there e (count-update f k v p n (ground arith))
]
  where
    here : n ≡ k → count (update f k v) p (suc n) + hit (f k) p ≡ count f p (suc n) + hit v p
    here q =
        unfold count in
        rw q (rw (==-refl k) (omega (arith, count-update_above f k v p k (omega arith))))

    there :
        (n == k) ≡ false
        → count (update f k v) p n + hit (f k) p ≡ count f p n + hit v p
        → count (update f k v) p (suc n) + hit (f k) p ≡ count f p (suc n) + hit v p
    there e r = unfold count in rw e (omega (arith, r))

-- one reference more to a page
abbrev pub pin : (ℕ → ℕ) → ℕ → ℕ → ℕ
pin pins pp = update pins pp (pins pp + 1)

abbrev pub table : Memory → ℕ → ℕ → ℕ
table m pgdir i = m.words pgdir i / 4096

-- A page directory whose user part is in order: every table and the directory are pages that
-- something holds on to, `pins` counts what holds on to a page apart from the user entries of this
-- directory, and the reference counts cover both.
pub record IsSpace (m : Memory) (pgdir : ℕ) (xs : List ℕ) (pins : ℕ → ℕ) : Type 0 where
  pub free : FreeList m xs
  pub small : m.npages ≤ 2 ^ 20
  pub root : pgdir < m.npages
  pub root_pinned : 0 < pins pgdir
  pub table_below : (i : ℕ) → i < user_tables → m.words pgdir i ≢ 0 → table m pgdir i < m.npages
  pub table_other : (i : ℕ) → i < user_tables → m.words pgdir i ≢ 0 → table m pgdir i ≢ pgdir
  pub table_pinned : (i : ℕ) → i < user_tables → m.words pgdir i ≢ 0 → 0 < pins (table m pgdir i)
  pub apart :
      (i j : ℕ)
      → i < user_tables
      → j < user_tables
      → m.words pgdir i ≢ 0
      → m.words pgdir j ≢ 0
      → i ≢ j
      → table m pgdir i ≢ table m pgdir j
  pub page_below :
      (k : ℕ) → k < user_pages → entry m pgdir k ≢ 0 → entry m pgdir k / 4096 < m.npages
  pub counted : (p : ℕ) → count (entry m pgdir) p user_pages + pins p ≤ m.pp_ref p
  pub bounded : (p : ℕ) → m.pp_ref p < 2 ^ 16
  pub unlinked : (p : ℕ) → 0 < m.pp_ref p → m.pp_link p ≡ none

pub AllFree-ref : (m : Memory) (xs : List ℕ) (p : ℕ) → AllFree m xs → 0 < m.pp_ref p → NotIn p xs
AllFree-ref m [] p a h = tt
AllFree-ref m (x ∷ xs) p a h =
    ((λ e. absurd (omega (arith, ap m.pp_ref e, a.1))), AllFree-ref m xs p a.2 h)

pub set_word_other :
    (m : Memory) (p : Place) (v q : ℕ) → q ≢ p.page → (set_word m p v).words q ≡ m.words q
set_word_other m p v q h = unfold set_word in rw (==_of_ne q p.page h) refl

set_word_same :
    (m : Memory) (p : Place) (v i : ℕ)
    → (set_word m p v).words p.page i ≡ update (m.words p.page) p.index v i
set_word_same m p v i = unfold set_word in rw (==-refl p.page) refl

module _ {m : Memory} {pgdir : ℕ} {xs : List ℕ} {pins : ℕ → ℕ} (s : IsSpace m pgdir xs pins)
    (k v : ℕ) (h : k < user_pages) (e : m.words pgdir (k / 1024) ≢ 0) where
  abbrev pub place : Place
  place = record { page = table m pgdir (k / 1024); index = k % 1024 }

  pub directory_same : (set_word m place v).words pgdir ≡ m.words pgdir
  directory_same =
      set_word_other m place v pgdir (λ p. s.table_other (k / 1024) (omega arith) e (sym p))

  word_other :
      (j : ℕ)
      → j < user_pages
      → j ≢ k
      → m.words pgdir (j / 1024) ≢ 0
      → (set_word m place v).words (table m pgdir (j / 1024)) (j % 1024)
        ≡ m.words (table m pgdir (j / 1024)) (j % 1024)
  word_other j l n d = elim (Bool-cases (j / 1024 == k / 1024)) [
    | inl t ↦
        let u : j / 1024 ≡ k / 1024 = ground arith in
        let w : (j % 1024 == k % 1024) ≡ false = ground arith in
        rw u (set_word_same m place v (j % 1024) ∙ rw w refl)
    | inr t ↦
        let u : j / 1024 ≢ k / 1024 = ground arith in
        ap (λ f. f (j % 1024))
          (set_word_other m place v (table m pgdir (j / 1024))
            (s.apart (j / 1024) (k / 1024) (omega arith) (omega arith) d e u))
  ]

  -- Writing an entry of a table changes that entry of the address space and no other.
  pub entry-set_word :
      (j : ℕ) → j < user_pages → entry (set_word m place v) pgdir j ≡ update (entry m pgdir) k v j
  entry-set_word j l = elim (Bool-cases (j == k)) [
    | inl t ↦
        let u : j ≡ k = ground arith in
        let d : (m.words pgdir (k / 1024) == 0) ≡ false = ==_of_ne (m.words pgdir (k / 1024)) 0 e in
        rw u (
          rw (==-refl k) (
            rw directory_same
              (rw d (set_word_same m place v (k % 1024) ∙ rw (==-refl (k % 1024)) refl))))
    | inr t ↦ rw t (
        rw directory_same (elim (Bool-cases (m.words pgdir (j / 1024) == 0)) [
          | inl d ↦ rw d refl
          | inr d ↦ rw d (word_other j l (ground arith) (ground arith))
        ]))
  ]
