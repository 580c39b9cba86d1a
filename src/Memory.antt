-- ===== src/Memory.antt =====
-- The memory of the JOS kernel: sched/inc/mmu.h, sched/inc/memlayout.h and the state of
-- sched/kern/pmap.c with the conversions of sched/kern/pmap.h.
pub mod Bits
pub mod Pages
pub mod Tables
pub mod Tests
use Prim.Native.Nat.{bit_or}
use tps_sistemas_operativos.Prelude.{
  ℕ, zero, suc, ◌+◌, ◌*◌, ◌/◌, ◌%◌, ◌^◌, Bool, true, false, Option, none, some, ltb, ◌==◌,
  if◌then◌else◌, update,
}

abbrev pub pgsize : ℕ
pgsize = 4096

abbrev pub word_mod : ℕ
word_mod = 2 ^ 32

-- `UTOP`
abbrev pub utop : ℕ
utop = 0xeec00000

-- `PGNUM` and `PTE_ADDR` of an address or an entry, as the number of its page
abbrev pub pgnum : ℕ → ℕ
pgnum la = la / 4096

abbrev pub pdx : ℕ → ℕ
pdx la = la / 4194304 % 1024

abbrev pub ptx : ℕ → ℕ
ptx la = la / 4096 % 1024

-- The bits of an entry. A test `x & PTE_P` takes the bit out by division.
abbrev pub pte_p : ℕ
pte_p = 1

abbrev pub pte_w : ℕ
pte_w = 2

abbrev pub pte_u : ℕ
pte_u = 4

abbrev pub has_p : ℕ → Bool
has_p x = x % 2 == 1

abbrev pub has_w : ℕ → Bool
has_w x = x / 2 % 2 == 1

abbrev pub has_u : ℕ → Bool
has_u x = x / 4 % 2 == 1

-- A place in physical memory that holds a word: the page, and the index in it. A `pde_t *` of a
-- page directory is the number of its page.
pub record Place : Type 0 where
  pub page : ℕ
  pub index : ℕ

-- `npages`, the array `pages` by its fields, `page_free_list`, and the words of each physical page.
-- A `struct PageInfo *` is the number of its page.
pub record Memory : Type 0 where
  pub npages : ℕ
  pub pp_ref : ℕ → ℕ
  pub pp_link : ℕ → Option ℕ
  pub page_free_list : Option ℕ
  pub words : ℕ → ℕ → ℕ

-- `page2pa`
abbrev pub page2pa : ℕ → ℕ
page2pa pp = pp * 4096 % word_mod

-- `KADDR` and `pa2page` of an address on a page: `none` is the panic.
abbrev pub kaddr : Memory → ℕ → Option ℕ
kaddr m page = if ltb page m.npages then some page else none

abbrev pub word_at : Memory → Place → ℕ
word_at m p = m.words p.page p.index

unfoldable pub set_word : Memory → Place → ℕ → Memory
set_word m p v = record m { words = update m.words p.page (update (m.words p.page) p.index v) }
