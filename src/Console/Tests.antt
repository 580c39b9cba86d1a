-- ===== src/Console/Tests.antt =====
-- The ring of input characters at its end.
use tps_sistemas_operativos.Prelude.{[], ◌∷◌, ◌==◌, if◌then◌else◌, arith}
use tps_sistemas_operativos.Console.{Cons}
use tps_sistemas_operativos.Console.Ring.{Reads, cons_getc-Reads}

-- one character waits in the last place
abbrev last_place : Cons
last_place = record { buf = λ i. if i == 511 then 97 else 0; rpos = 511; wpos = 0 }

cons_getc_example : Reads (98 ∷ 0 ∷ []) (99 ∷ []) last_place
cons_getc_example = cons_getc-Reads (98 ∷ 0 ∷ []) (99 ∷ []) last_place (omega arith) (omega arith)
