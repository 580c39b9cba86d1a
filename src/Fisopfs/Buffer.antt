-- ===== src/Fisopfs/Buffer.antt =====
-- The calls of the C library that fisopfs makes on blocks of bytes and on strings in them.
-- `none` is an access outside the block.
pub mod Laws
use tps_sistemas_operativos.Prelude.{
  ℕ, zero, suc, ◌+◌, Bool, true, false, ◌&&◌, Option, none, some, List, [], ◌∷◌, ◌++◌, ◌==◌, leb,
  if◌then◌else◌, ◌>>=◌, length, take, drop,
}

abbrev pub newline : ℕ
newline = 10

abbrev pub slash : ℕ
slash = 47

abbrev pub str_eq : List ℕ → List ℕ → Bool
str_eq [] [] = true
str_eq [] (y ∷ ys) = false
str_eq (x ∷ xs) [] = false
str_eq (x ∷ xs) (y ∷ ys) = (x == y) && str_eq xs ys

-- the string at the start of a block, up to its terminator
unfoldable pub c_str : List ℕ → Option (List ℕ)
c_str [] = none
c_str (b ∷ bs) = let rest = c_str bs in if b == 0 then some [] else (rest >>= λ s. some (b ∷ s))

unfoldable pub strlen : List ℕ → Option ℕ
unfolding c_str
strlen block = c_str block >>= λ s. some (length s)

-- `memcpy` into a block
unfoldable pub write_at : List ℕ → ℕ → List ℕ → Option (List ℕ)
write_at block offset bytes =
    if leb (offset + length bytes) (length block)
    then some (take offset block ++ (bytes ++ drop (offset + length bytes) block))
    else none

-- `memcpy` out of a block
unfoldable pub read_at : List ℕ → ℕ → ℕ → Option (List ℕ)
read_at block offset n =
    if leb (offset + n) (length block) then some (take n (drop offset block)) else none

-- `strcpy` into a block
abbrev pub strcpy_at : List ℕ → ℕ → List ℕ → Option (List ℕ)
strcpy_at block offset s = write_at block offset (s ++ 0 ∷ [])

-- The text before the last slash, and the text behind it: `strrchr(path, '/')`.
unfoldable pub strrchr : List ℕ → Option (List ℕ × List ℕ)
strrchr [] = none
strrchr (c ∷ cs) = elim (strrchr cs) [
  | some (before, behind) ↦ some (c ∷ before, behind)
  | none ↦ if c == slash then some ([], cs) else none
]

-- `while (i < n && !p(i)) i++`, with `n` rounds left
unfoldable pub find_from : ℕ → ℕ → (ℕ → Bool) → Option ℕ
find_from zero i p = none
find_from (suc n) i p = elim (p i) [ true ↦ some i | false ↦ find_from n (i + 1) p ]
