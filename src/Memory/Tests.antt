-- ===== src/Memory/Tests.antt =====
-- The memory functions on eight pages: a page directory with one table, which maps page 3.
use tps_sistemas_operativos.Prelude.{
  ℕ, zero, suc, ◌≡◌, refl, true, false, none, some, List, [], ◌∷◌, ◌==◌, ◌&&◌, if◌then◌else◌,
  update, arith, inr,
}
use tps_sistemas_operativos.Memory.{Memory}
use tps_sistemas_operativos.Memory.Pages.{page_init}
use tps_sistemas_operativos.Memory.Pages.FreeList.{FreeList, Allocates, page_alloc-Allocates}
use tps_sistemas_operativos.Memory.Pages.Init.{available, page_init-FreeList}
use tps_sistemas_operativos.Memory.Tables.{page_insert, user_mem_check}
use tps_sistemas_operativos.Memory.Tables.Check.{
  Checks, user_mem_check-Checks, user_mem_check-wrapped,
}
use tps_sistemas_operativos.Memory.Tables.Space.{
  user_pages, entry, hit, count, count-same, count-update, IsSpace,
}
use tps_sistemas_operativos.Memory.Tables.Space.Remove.{Removes, page_remove-Removes}
use tps_sistemas_operativos.Memory.Tables.Space.Insert.{
  IsMappable, Inserts, page_insert-Inserts, page_insert-none,
}

abbrev pub small : List ℕ → Memory
small xs = record {
  npages = 8;
  pp_ref = λ p. if p == 1 then 1 else if p == 2 then 1 else if p == 3 then 1 else 0;
  pp_link = λ p. if p == 4 then some 5 else none;
  page_free_list = elim xs [ [] ↦ none | x ∷ _ ↦ some x ];
  words = λ p i. if p == 1 && i == 0 then 8199 else if p == 2 && i == 5 then 12295 else 0;
}

abbrev pub pins : ℕ → ℕ
pins p = if p == 1 then 1 else if p == 2 then 1 else 0

count-zero : (p n : ℕ) → count (λ k. 0) p n ≡ 0
unfolding count
count-zero p zero = refl
count-zero p (suc n) = omega (arith, count-zero p n)

pub entry-small : (xs : List ℕ) (k : ℕ) → entry (small xs) 1 k ≡ update (λ j. 0) 5 12295 k
entry-small xs k = ground arith

count-small : (xs : List ℕ) (p : ℕ) → count (entry (small xs) 1) p user_pages ≡ hit 12295 p
count-small xs p = omega (
  arith,
  count-same (entry (small xs) 1) (update (λ j. 0) 5 12295) p user_pages (λ k l. entry-small xs k),
  count-update (λ j. 0) 5 12295 p user_pages (omega arith),
  count-zero p user_pages,
)

free_two : FreeList (small (4 ∷ 5 ∷ [])) (4 ∷ 5 ∷ [])
free_two = record {
  chain = (refl, (refl, refl));
  distinct = (((λ e. absurd (omega (arith, e))), tt), (tt, tt));
  all_free = (omega arith, refl, (omega arith, refl, tt));
}

free_none : FreeList (small []) []
free_none = record { chain = refl; distinct = tt; all_free = tt }

small-IsSpace : (xs : List ℕ) → FreeList (small xs) xs → IsSpace (small xs) 1 xs pins
small-IsSpace xs f = record {
  free = f;
  small = omega arith;
  root = omega arith;
  root_pinned = omega arith;
  table_below = λ i l n. ground arith;
  table_other = λ i l n. ground arith;
  table_pinned = λ i l n. ground arith;
  apart = λ i j li lj ni nj d. ground arith;
  page_below = λ k l n. ground (arith, entry-small xs k);
  counted = λ p. ground (arith, count-small xs p);
  bounded = λ p. ground arith;
  unlinked = λ p h. ground arith;
}

abbrev pub two_free : Memory
two_free = small (4 ∷ 5 ∷ [])

pub two_free-IsSpace : IsSpace two_free 1 (4 ∷ 5 ∷ []) pins
two_free-IsSpace = small-IsSpace (4 ∷ 5 ∷ []) free_two

page_3-IsMappable : IsMappable two_free (4 ∷ 5 ∷ []) 3
page_3-IsMappable = record {
  below = omega arith;
  not_free = ((λ e. absurd (omega (arith, e))), ((λ e. absurd (omega (arith, e))), tt));
  not_linked = refl;
  countable = omega arith;
}

page_alloc_example : Allocates two_free (4 ∷ 5 ∷ [])
page_alloc_example = page_alloc-Allocates two_free (4 ∷ 5 ∷ []) free_two

page_init_example :
    FreeList (page_init 260 (record (small []) { npages = 264 })) (available 260 264)
page_init_example = page_init-FreeList 260 (record (small []) { npages = 264 }) refl

page_remove_example : Removes two_free 1 (4 ∷ 5 ∷ []) pins 0x5010
page_remove_example = page_remove-Removes two_free-IsSpace 0x5010 (omega arith)

page_insert_example : Inserts two_free 1 (4 ∷ 5 ∷ []) pins 3 0x800000 7
page_insert_example =
    page_insert-Inserts (4 ∷ 5 ∷ []) two_free-IsSpace 3 0x800000 7 (omega arith) (omega arith)
      page_3-IsMappable (inr (λ e. ground arith))

page_insert_no_memory : page_insert 1 3 0x800000 7 (small []) ≡ some (false, small [])
page_insert_no_memory =
    page_insert-none (small-IsSpace [] free_none) 3 0x800000 7 (omega arith) refl

user_mem_check_example : Checks two_free-IsSpace 4 0x5010 20
user_mem_check_example =
    user_mem_check-Checks two_free-IsSpace 4 0x5010 20 (omega arith) (omega arith)

user_mem_check_wrapped_example : user_mem_check 1 0xf0000000 0x10000000 4 two_free ≡ some true
user_mem_check_wrapped_example =
    user_mem_check-wrapped two_free 1 4 0xf0000000 0x10000000 (omega arith) (omega arith)
      (omega arith) (omega arith)
