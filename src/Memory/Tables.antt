-- ===== src/Memory/Tables.antt =====
-- sched/kern/pmap.c: page directories and page tables. `none` is a panic.
pub mod Space
pub mod Permissions
pub mod Check
use Prim.Native.Nat.{bit_and, bit_or}
use tps_sistemas_operativos.Prelude.{
  ℕ, zero, suc, ◌+◌, ◌-◌, ◌*◌, ◌/◌, ◌%◌, ◌^◌, Bool, true, false, not, ◌&&◌, ◌||◌, Option, none,
  some, ltb, leb, ◌==◌, if◌then◌else◌, update, ◌>>=◌,
}
use tps_sistemas_operativos.Memory.{
  Memory, Place, kaddr, page2pa, pgnum, pdx, ptx, word_at, set_word, pte_p, pte_w, pte_u, has_p,
  has_w, has_u, pgsize, utop, word_mod,
}
use tps_sistemas_operativos.Memory.Pages.{page_alloc, page_decref, incref}

-- the page table that `pgdir_walk` adds for the entry `i` when there is none
unfoldable pub add_table : ℕ → ℕ → Memory → Option Memory
unfolding set_word
add_table pgdir i m = page_alloc true m >>= λ (new, m'). elim new [
  | none ↦ some m'
  | some pp ↦ some (
      set_word (incref pp m') (record { page = pgdir; index = i })
        (bit_or (bit_or (bit_or (page2pa pp) pte_p) pte_w) pte_u))
]

-- the entry of a page table for an address, where the directory has the table
unfoldable pub entry_in : ℕ → ℕ → Memory → Option (Option Place)
entry_in pgdir va m =
    let pde = m.words pgdir (pdx va) in
    if pde == 0
    then some none
    else (kaddr m (pgnum pde) >>= λ table. some (some (record { page = table; index = ptx va })))

-- `pgdir_walk`
unfoldable pub pgdir_walk : ℕ → ℕ → Bool → Memory → Option (Option Place × Memory)
pgdir_walk pgdir va create m = do
  m' ← if m.words pgdir (pdx va) == 0 && create then add_table pgdir (pdx va) m else some m
  pte ← entry_in pgdir va m'
  some (pte, m')

-- `page_lookup`: the page, and what it stores through `pte_store`
unfoldable pub page_lookup : ℕ → ℕ → Memory → Option (Option (ℕ × Place))
unfolding entry_in
page_lookup pgdir va m = entry_in pgdir va m >>= λ pte. elim pte [
  | none ↦ some none
  | some place ↦
      if word_at m place == 0
      then some none
      else (kaddr m (pgnum (word_at m place)) >>= λ pp. some (some (pp, place)))
]

-- `page_remove`; the TLB is not part of this state
unfoldable pub page_remove : ℕ → ℕ → Memory → Option Memory
page_remove pgdir va m = page_lookup pgdir va m >>= λ found. elim found [
  | none ↦ some m
  | some (pp, place) ↦ page_decref pp m >>= λ m'. some (set_word m' place 0)
]

-- `page_insert`: false for `-E_NO_MEM`
unfoldable pub page_insert : ℕ → ℕ → ℕ → ℕ → Memory → Option (Bool × Memory)
page_insert pgdir pp va perm m = pgdir_walk pgdir va true m >>= λ (pte, m1). elim pte [
  | none ↦ some (false, m1)
  | some place ↦ page_remove pgdir va (incref pp m1) >>= λ m2.
      some (true, set_word m2 place (bit_or (bit_or (page2pa pp) perm) pte_p))
]

-- `boot_map_region` of `n` pages, without large pages: a table that cannot be allocated is a null
-- pointer that is written through
unfoldable pub boot_map_region : ℕ → ℕ → ℕ → ℕ → ℕ → Memory → Option Memory
boot_map_region zero pgdir va pa perm m = some m
boot_map_region (suc n) pgdir va pa perm m = do
  (pte, m1) ← pgdir_walk pgdir va true m
  m2 ← page_remove pgdir va m1
  place ← pte
  boot_map_region n pgdir ((va + pgsize) % word_mod) ((pa + pgsize) % word_mod) perm
      (set_word m2 place (bit_or (bit_or pa perm) pte_p))

-- `(*pte & (perm | PTE_P)) == (perm | PTE_P)`
unfoldable pub allows : ℕ → ℕ → Bool
allows perm pte = bit_and pte (bit_or perm pte_p) == bit_or perm pte_p

-- what `user_mem_check` asks of one page
unfoldable pub page_allows : ℕ → ℕ → ℕ → Memory → Option Bool
unfolding allows
page_allows pgdir va perm m = entry_in pgdir va m >>= λ pte.
    some (elim pte [ none ↦ false | some place ↦ allows perm (word_at m place) ])

-- the loop of `user_mem_check` over `n` pages
unfoldable pub check_loop : ℕ → ℕ → ℕ → ℕ → Memory → Option Bool
check_loop zero pgdir va perm m = some true
check_loop (suc n) pgdir va perm m = page_allows pgdir va perm m >>= λ ok. elim ok [
  | true ↦ check_loop n pgdir (va + pgsize) perm m
  | false ↦ some false
]

-- `ROUNDUP` of a `uint32_t` to a page
abbrev pub round_up : ℕ → ℕ
round_up a = let b = (a + 4095) % word_mod in b - b % 4096

abbrev pub round_down : ℕ → ℕ
round_down a = a - a % 4096

-- `user_mem_check`: false for `-E_FAULT`
unfoldable pub user_mem_check : ℕ → ℕ → ℕ → ℕ → Memory → Option Bool
user_mem_check pgdir va len perm m =
    let va_hi = round_up ((va + len) % word_mod) in
    if ltb utop va_hi
    then some false
    else check_loop ((va_hi - round_down va) / 4096) pgdir (round_down va) perm m
