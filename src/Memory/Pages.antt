-- ===== src/Memory/Pages.antt =====
-- sched/kern/pmap.c: the pages that are free. `none` is a panic.
pub mod FreeList
pub mod Init
pub mod Collect
use tps_sistemas_operativos.Prelude.{
  ℕ, zero, suc, ◌+◌, ◌-◌, ◌%◌, ◌/◌, ◌^◌, Bool, true, false, not, ◌&&◌, ◌||◌, Option, none, some,
  ltb, leb, ◌==◌, if◌then◌else◌, update, ◌>>=◌,
}
use tps_sistemas_operativos.Memory.{Memory, kaddr}

-- `memset(page2kva(pp), 0, PGSIZE)`
unfoldable pub zero_page : Memory → ℕ → Option Memory
zero_page m pp = kaddr m pp >>= λ page. some (record m { words = update m.words page (λ i. 0) })

-- what `page_alloc` does with the first free page
abbrev pub unlink : Memory → ℕ → Memory
unlink m pp = record m { page_free_list = m.pp_link pp; pp_link = update m.pp_link pp none }

-- `page_alloc`, with `ALLOC_ZERO` or not: the page, or none for `NULL`
unfoldable pub page_alloc : Bool → Memory → Option (Option ℕ × Memory)
unfolding zero_page
page_alloc zeroed m = elim m.page_free_list [
  | none ↦ some (none, m)
  | some pp ↦
      if zeroed
      then (zero_page (unlink m pp) pp >>= λ m'. some (some pp, m'))
      else some (some pp, unlink m pp)
]

-- `page_free`
unfoldable pub page_free : ℕ → Memory → Option Memory
page_free pp m = if not (m.pp_ref pp == 0) then none else elim (m.pp_link pp) [
  | some next ↦ none
  | none ↦
      some (record m { pp_link = update m.pp_link pp m.page_free_list; page_free_list = some pp })
]

-- `pp->pp_ref++`, which is a `uint16_t`
abbrev pub incref : ℕ → Memory → Memory
incref pp m = record m { pp_ref = update m.pp_ref pp ((m.pp_ref pp + 1) % 2 ^ 16) }

abbrev pub decref : ℕ → Memory → Memory
decref pp m = record m { pp_ref = update m.pp_ref pp ((m.pp_ref pp + 65535) % 2 ^ 16) }

-- `page_decref`
unfoldable pub page_decref : ℕ → Memory → Option Memory
unfolding page_free
page_decref pp m =
    if (m.pp_ref pp + 65535) % 2 ^ 16 == 0 then page_free pp (decref pp m) else some (decref pp m)

-- `PGNUM` of `MPENTRY_PADDR`, `IOPHYSMEM` and `EXTPHYSMEM`
abbrev pub mpentry_page : ℕ
mpentry_page = 7

abbrev pub iophysmem_page : ℕ
iophysmem_page = 160

abbrev pub extphysmem_page : ℕ
extphysmem_page = 256

-- the pages that `page_init` passes over, with the first page behind what `boot_alloc` gave out
unfoldable pub is_reserved : ℕ → ℕ → Bool
is_reserved boot_end i =
    (i == 0)
    || (i == mpentry_page)
    || (leb iophysmem_page i && ltb i extphysmem_page)
    || (leb extphysmem_page i && ltb i boot_end)

-- one round of `page_init`
unfoldable pub init_page : ℕ → ℕ → Memory → Memory
unfolding is_reserved
init_page boot_end i m =
    if is_reserved boot_end i then record m { pp_link = update m.pp_link i none } else record m {
      pp_link = update m.pp_link i m.page_free_list;
      pp_ref = update m.pp_ref i 0;
      page_free_list = some i;
    }

-- the loop of `page_init` over the first `n` pages
unfoldable pub init_loop : ℕ → ℕ → Memory → Memory
init_loop zero boot_end m = m
init_loop (suc n) boot_end m = init_page boot_end n (init_loop n boot_end m)

-- `page_init`
unfoldable pub page_init : ℕ → Memory → Memory
page_init boot_end m = init_loop m.npages boot_end m
