-- ===== src/Memory/Pages/Init.antt =====
-- The list of free pages that `page_init` builds.
use tps_sistemas_operativos.Prelude.{
  ℕ, zero, suc, ◌≤◌, ◌<◌, ◌≡◌, refl, ◌∙◌, Option, none, some, List, [], ◌∷◌, if◌then◌else◌, update,
  Bool, not, ◌&&◌, ◌||◌, leb, ltb, ap, arith, Bool-cases, inl, inr, ==-refl,
}
use tps_sistemas_operativos.Memory.{Memory}
use tps_sistemas_operativos.Memory.Pages.{is_reserved, init_page, init_loop, page_init}
use tps_sistemas_operativos.Memory.Pages.FreeList.{
  NotIn, AllFree, AllFree-same, Chain-update, FreeList,
}

-- Page `i` may be given out: it lies between page 0 and page 7, where the other processors start, or
-- between page 7 and the hole for devices at page 160, or from the hole's end at page 256 and from
-- `boot_end`, where what the kernel takes ends, on.
abbrev pub usable : ℕ → ℕ → Bool
usable boot_end i =
    (leb 1 i && ltb i 7) || ((leb 8 i && ltb i 160) || (leb 256 i && leb boot_end i))

-- the usable pages below `n`, the highest first
abbrev pub available : ℕ → ℕ → List ℕ
available boot_end zero = []
available boot_end (suc n) =
    let rest = available boot_end n in if usable boot_end n then n ∷ rest else rest

available-NotIn : (boot_end n x : ℕ) → n ≤ x → NotIn x (available boot_end n)
available-NotIn boot_end zero x h = tt
available-NotIn boot_end (suc n) x h = elim (Bool-cases (usable boot_end n)) [
  | inl e ↦ rw e ((λ p. absurd (omega arith)), available-NotIn boot_end n x (omega arith))
  | inr e ↦ rw e (available-NotIn boot_end n x (omega arith))
]

is_reserved-usable : (boot_end i : ℕ) → is_reserved boot_end i ≡ not (usable boot_end i)
unfolding is_reserved
is_reserved-usable boot_end i = ground arith

AllFree-init :
    (m : Memory) (xs : List ℕ) (i : ℕ) (link : ℕ → Option ℕ) (first : Option ℕ)
    → AllFree m xs
    → AllFree (record m { pp_link = link; pp_ref = update m.pp_ref i 0; page_free_list = first }) xs
AllFree-init m [] i link first a = tt
AllFree-init m (x ∷ xs) i link first a = (a.0, ground arith, AllFree-init m xs i link first a.2)

init_page-FreeList :
    (boot_end n : ℕ) (m : Memory)
    → n < m.npages
    → FreeList m (available boot_end n)
    → FreeList (init_page boot_end n m) (available boot_end (suc n))
init_page-FreeList boot_end n m h f = elim (Bool-cases (usable boot_end n)) [
  | inl e ↦
      unfold init_page in
      rw (reserved e) (rw e (added (available-NotIn boot_end n n (omega arith))))
  | inr e ↦
      unfold init_page in
      rw (reserved e) (rw e (passed (available-NotIn boot_end n n (omega arith))))
]
  where
    reserved : {b : Bool} → usable boot_end n ≡ b → is_reserved boot_end n ≡ not b
    reserved e = is_reserved-usable boot_end n ∙ ap not e

    xs : List ℕ
    xs = available boot_end n

    passed : NotIn n xs → FreeList (record m { pp_link = update m.pp_link n none }) xs
    passed k = record {
      chain = Chain-update m.pp_link n none m.page_free_list xs k f.chain;
      distinct = f.distinct;
      all_free =
          AllFree-same m (record m { pp_link = update m.pp_link n none }) xs refl (λ y. refl)
            f.all_free;
    }

    added :
        NotIn n xs
        → FreeList
            (record m {
              pp_link = update m.pp_link n m.page_free_list;
              pp_ref = update m.pp_ref n 0;
              page_free_list = some n;
            })
            (n ∷ xs)
    added k = record {
      chain = (
        refl,
        rw (==-refl n) (Chain-update m.pp_link n m.page_free_list m.page_free_list xs k f.chain),
      );
      distinct = (k, f.distinct);
      all_free = (
        h,
        rw (==-refl n) refl,
        AllFree-init m xs n (update m.pp_link n m.page_free_list) (some n) f.all_free,
      );
    }

init_page-npages : (boot_end n : ℕ) (m : Memory) → (init_page boot_end n m).npages ≡ m.npages
init_page-npages boot_end n m = elim (Bool-cases (is_reserved boot_end n)) [
  | inl e ↦ unfold init_page in rw e refl
  | inr e ↦ unfold init_page in rw e refl
]

init_loop-npages : (n boot_end : ℕ) (m : Memory) → (init_loop n boot_end m).npages ≡ m.npages
unfolding init_loop
init_loop-npages zero boot_end m = refl
init_loop-npages (suc n) boot_end m =
    init_page-npages boot_end n (init_loop n boot_end m) ∙ init_loop-npages n boot_end m

init_loop-FreeList :
    (n boot_end : ℕ) (m : Memory)
    → n ≤ m.npages
    → m.page_free_list ≡ none
    → FreeList (init_loop n boot_end m) (available boot_end n)
unfolding init_loop
init_loop-FreeList zero boot_end m h e = record { chain = e; distinct = tt; all_free = tt }
init_loop-FreeList (suc n) boot_end m h e =
    init_page-FreeList boot_end n (init_loop n boot_end m)
      (omega (arith, init_loop-npages n boot_end m))
      (init_loop-FreeList n boot_end m (omega arith) e)

-- `page_init` from an empty list makes the list of all pages but page 0, page 7, where the other
-- processors start, and those from the hole for devices at page 160 up to its end at page 256 and to
-- the end of what the kernel takes; the highest page is first.
pub page_init-FreeList :
    (boot_end : ℕ) (m : Memory)
    → m.page_free_list ≡ none
    → FreeList (page_init boot_end m) (available boot_end m.npages)
page_init-FreeList boot_end m e =
    unfold page_init in init_loop-FreeList m.npages boot_end m (omega arith) e
