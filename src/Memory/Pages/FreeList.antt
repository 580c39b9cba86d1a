-- ===== src/Memory/Pages/FreeList.antt =====
-- The list of free pages as a sequence.
use tps_sistemas_operativos.Prelude.{
  ℕ, ◌<◌, ◌≡◌, ◌≢◌, refl, ◌∙◌, subst, Bool, true, false, Option, none, some, List, [], ◌∷◌, ◌==◌,
  ltb, update, arith, ==-refl, ==_of_ne,
}
use tps_sistemas_operativos.Memory.{Memory}
use tps_sistemas_operativos.Memory.Pages.{page_alloc, zero_page, unlink, page_free}

abbrev pub NotIn : ℕ → List ℕ → Type 0
NotIn x [] = Unit
NotIn x (y ∷ ys) = (x ≢ y) × NotIn x ys

abbrev pub Distinct : List ℕ → Type 0
Distinct [] = Unit
Distinct (x ∷ xs) = NotIn x xs × Distinct xs

-- The links from `first` on pass through these pages.
abbrev pub Chain : (ℕ → Option ℕ) → Option ℕ → List ℕ → Type 0
Chain link first [] = first ≡ none
Chain link first (x ∷ xs) = (first ≡ some x) × Chain link (link x) xs

abbrev pub AllFree : Memory → List ℕ → Type 0
AllFree m [] = Unit
AllFree m (x ∷ xs) = (x < m.npages) × (m.pp_ref x ≡ 0) × AllFree m xs

-- The free pages, in the order in which they are given out.
pub record FreeList (m : Memory) (xs : List ℕ) : Type 0 where
  pub chain : Chain m.pp_link m.page_free_list xs
  pub distinct : Distinct xs
  pub all_free : AllFree m xs

pub Chain-update :
    (link : ℕ → Option ℕ) (x : ℕ) (v first : Option ℕ) (xs : List ℕ)
    → NotIn x xs
    → Chain link first xs
    → Chain (update link x v) first xs
Chain-update link x v first [] n c = c
Chain-update link x v first (y ∷ ys) n c = (
  c.0,
  let e : (y == x) ≡ false = ground arith in rw e (Chain-update link x v (link y) ys n.1 c.1),
)

pub AllFree-same :
    (m m' : Memory) (xs : List ℕ)
    → m'.npages ≡ m.npages
    → ((x : ℕ) → m'.pp_ref x ≡ m.pp_ref x)
    → AllFree m xs
    → AllFree m' xs
AllFree-same m m' [] n r a = tt
AllFree-same m m' (x ∷ xs) n r a = (rw n a.0, r x ∙ a.1, AllFree-same m m' xs n r a.2)

pub unlink-FreeList :
    (m : Memory) (x : ℕ) (xs : List ℕ) → FreeList m (x ∷ xs) → FreeList (unlink m x) xs
unlink-FreeList m x xs f = record {
  chain = Chain-update m.pp_link x none (m.pp_link x) xs f.distinct.0 f.chain.1;
  distinct = f.distinct.1;
  all_free = AllFree-same m (unlink m x) xs refl (λ y. refl) f.all_free.2;
}

-- the words after a page was cleared
abbrev pub cleared : (ℕ → ℕ → ℕ) → ℕ → ℕ → ℕ → ℕ
cleared words x = update words x (λ i. 0)

-- What `page_alloc` with `ALLOC_ZERO` leaves of the memory when `x` is the first free page.
abbrev pub allocated : Memory → ℕ → Memory
allocated m x = record (unlink m x) { words = cleared m.words x }

pub page_alloc-first :
    (m : Memory) (x : ℕ) (xs : List ℕ)
    → FreeList m (x ∷ xs)
    → page_alloc true m ≡ some (some x, allocated m x)
page_alloc-first m x xs f =
    unfold page_alloc in unfold zero_page in rw (f.chain.0, page_alloc) (rw below refl)
  where
    below : ltb x m.npages ≡ true
    below = ground (arith, f.all_free.0)

pub page_alloc-empty :
    (m : Memory) (zeroed : Bool) → FreeList m [] → page_alloc zeroed m ≡ some (none, m)
page_alloc-empty m zeroed f = empty (some (none, m)) refl
  where
    empty : (r : Option (Option ℕ × Memory)) → some (none, m) ≡ r → page_alloc zeroed m ≡ r
    empty r e = unfold page_alloc in rw (f.chain, page_alloc) e

pub allocated-FreeList :
    (m : Memory) (x : ℕ) (xs : List ℕ) → FreeList m (x ∷ xs) → FreeList (allocated m x) xs
allocated-FreeList m x xs f =
    let u = unlink-FreeList m x xs f in
    record {
      chain = u.chain;
      distinct = u.distinct;
      all_free = AllFree-same m (allocated m x) xs refl (λ y. refl) f.all_free.2;
    }

abbrev pub freed : Memory → ℕ → Memory
freed m x = record m { pp_link = update m.pp_link x m.page_free_list; page_free_list = some x }

freed-FreeList :
    (m : Memory) (x : ℕ) (xs : List ℕ)
    → FreeList m xs
    → NotIn x xs
    → x < m.npages
    → m.pp_ref x ≡ 0
    → FreeList (freed m x) (x ∷ xs)
freed-FreeList m x xs f n b r = record {
  chain = (
    refl,
    rw (==-refl x) (Chain-update m.pp_link x m.page_free_list m.page_free_list xs n f.chain),
  );
  distinct = (n, f.distinct);
  all_free = (b, r, AllFree-same m (freed m x) xs refl (λ y. refl) f.all_free);
}

-- What `page_alloc` and `page_free` promise of the sequence of free pages.
pub record Allocates (m : Memory) (xs : List ℕ) : Type 0 where
  pub takes_first :
      (x : ℕ) (ys : List ℕ)
      → xs ≡ x ∷ ys
      → (page_alloc true m ≡ some (some x, allocated m x))
        × FreeList (allocated m x) ys
        × (page_alloc false m ≡ some (some x, unlink m x))
        × FreeList (unlink m x) ys
  pub runs_out : (zeroed : Bool) → xs ≡ [] → page_alloc zeroed m ≡ some (none, m)
  pub gives_back :
      (x : ℕ)
      → NotIn x xs
      → x < m.npages
      → m.pp_ref x ≡ 0
      → m.pp_link x ≡ none
      → (page_free x m ≡ some (freed m x)) × FreeList (freed m x) (x ∷ xs)
  pub refuses : (x : ℕ) → m.pp_ref x ≢ 0 → page_free x m ≡ none

-- `page_alloc` takes the first page of the list of free pages, cleared with `ALLOC_ZERO`, and gives
-- `NULL` when there is none; `page_free` puts a page without references that is not in the list
-- before the others, and panics for a page that has references. The list stays one of distinct
-- pages without references.
pub page_alloc-Allocates : (m : Memory) (xs : List ℕ) → FreeList m xs → Allocates m xs
page_alloc-Allocates m xs f = record {
  takes_first = λ x ys e.
      let g = subst (FreeList m) e f in
      (
        page_alloc-first m x ys g,
        allocated-FreeList m x ys g,
        plain x ys g,
        unlink-FreeList m x ys g,
      );
  runs_out = λ zeroed e. page_alloc-empty m zeroed (subst (FreeList m) e f);
  gives_back = λ x n b r l. (put x r l, freed-FreeList m x xs f n b r);
  refuses = λ x h. unfold page_free in rw (==_of_ne (m.pp_ref x) 0 h) refl;
}
  where
    plain :
        (x : ℕ) (ys : List ℕ) → FreeList m (x ∷ ys) → page_alloc false m ≡ some (some x, unlink m x)
    plain x ys g = unfold page_alloc in rw (g.chain.0, page_alloc) refl

    put : (x : ℕ) → m.pp_ref x ≡ 0 → m.pp_link x ≡ none → page_free x m ≡ some (freed m x)
    put x r l = unfold page_free in rw r (rw (l, page_free) refl)
