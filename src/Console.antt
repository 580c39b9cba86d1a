-- ===== src/Console.antt =====
-- sched/kern/console.c: the ring of input characters.
pub mod Ring
mod Tests
use tps_sistemas_operativos.Prelude.{ℕ, ◌+◌, ◌%◌, List, [], ◌∷◌, ◌==◌, if◌then◌else◌, update}

abbrev pub consbufsize : ℕ
consbufsize = 512

-- `cons`
pub record Cons : Type 0 where
  pub buf : ℕ → ℕ
  pub rpos : ℕ
  pub wpos : ℕ

abbrev pub next_pos : ℕ → ℕ
next_pos pos = if pos + 1 == consbufsize then 0 else pos + 1

-- one character that a device gave
abbrev pub put : ℕ → Cons → Cons
put c q = record q { buf = update q.buf q.wpos (c % 256); wpos = next_pos q.wpos }

-- `cons_intr` of a device that answers these characters and then -1
unfoldable pub cons_intr : List ℕ → Cons → Cons
cons_intr [] q = q
cons_intr (c ∷ cs) q = cons_intr cs (if c == 0 then q else put c q)

-- `cons_getc`, where the serial port and the keyboard answer these characters
unfoldable pub cons_getc : List ℕ → List ℕ → Cons → ℕ × Cons
cons_getc serial keyboard q =
    let q' = cons_intr keyboard (cons_intr serial q) in
    if q'.rpos == q'.wpos then (0, q') else (q'.buf q'.rpos, record q' { rpos = next_pos q'.rpos })
