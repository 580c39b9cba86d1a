-- ===== src/Fisopfs/File/Dir/Lines.antt =====
-- Reading a directory line by line: `read_line`, and the loops of `fisopfs_readdir` and
-- `remove_inode`.
use mathlib.Core.List.{append_assoc, append-nil}
use tps_sistemas_operativos.Prelude.{
  ℕ, zero, suc, ◌+◌, ◌≤◌, ◌<◌, ◌≡◌, refl, sym, ap, ◌∙◌, Bool, true, false, Option, some, List, [],
  ◌∷◌, ◌++◌, ltb, leb, if◌then◌else◌, ◌>>=◌, arith, length, drop, length-append, Bool-cases, inl,
  inr,
}
use tps_sistemas_operativos.Fisopfs.{max_path}
use tps_sistemas_operativos.Fisopfs.Buffer.{newline, str_eq}
use tps_sistemas_operativos.Fisopfs.Buffer.Laws.{drop-append}
use tps_sistemas_operativos.Fisopfs.File.{line_at, read_line, copy_entries, add_dentry_to_content}
use tps_sistemas_operativos.Fisopfs.File.Dir.{Clean, AllClean, render, IsDir, render-append}
use tps_sistemas_operativos.Fisopfs.File.Dir.Add.{Added, add_dentry_to_content-IsDir}

line_at-line : (n rest : List ℕ) → Clean n → line_at (n ++ newline ∷ rest) ≡ some (n, true)
unfolding line_at
line_at-line [] rest h = refl
line_at-line (b ∷ bs) rest h = ground (arith, line_at-line bs rest h.2)

-- At the start of a line that fits into the buffer, `read_line` gives the line, and its length
-- with the terminator.
pub read_line-line :
    (content n rest : List ℕ) (capacity offset : ℕ)
    → Clean n
    → drop offset content ≡ n ++ newline ∷ rest
    → length n < capacity
    → read_line content capacity offset ≡ some (n, length n + 1)
unfolding read_line
read_line-line content n rest capacity offset h e small =
    rw e (rw (line_at-line n rest h) (rw (room) refl))
  where
    room : leb (length n + 1) capacity ≡ true
    room = ground arith

drop-nil {ℓ} : (A : Type ℓ) (n : ℕ) → drop {A = A} n [] ≡ []
drop-nil A zero = refl
drop-nil A (suc n) = refl

drop-drop : (m n : ℕ) (xs : List ℕ) → drop (m + n) xs ≡ drop n (drop m xs)
drop-drop zero n xs = ap (λ k. drop k xs) (omega arith)
drop-drop (suc m) n [] = drop-nil ℕ (suc m + n) ∙ sym (drop-nil ℕ n)
drop-drop (suc m) n (x ∷ xs) = ap (λ k. drop k (x ∷ xs)) (moved m n) ∙ drop-drop m n xs
  where
    moved : (m n : ℕ) → suc m + n ≡ suc (m + n)
    moved m n = omega arith

-- behind a line
pub drop-line :
    (content n rest : List ℕ) (offset : ℕ)
    → drop offset content ≡ n ++ newline ∷ rest
    → drop (offset + (length n + 1)) content ≡ rest
drop-line content n rest offset e =
    drop-drop offset (length n + 1) content
    ∙ ap (drop (length n + 1)) e
    ∙ drop-drop (length n) 1 (n ++ newline ∷ rest)
    ∙ ap (drop 1) (drop-append n (newline ∷ rest))

abbrev pub AllShort : ℕ → List (List ℕ) → Type 0
AllShort capacity [] = Unit
AllShort capacity (n ∷ ns) = (length n < capacity) × AllShort capacity ns

-- The entries but those of one name.
abbrev pub without : List ℕ → List (List ℕ) → List (List ℕ)
without name [] = []
without name (n ∷ ns) = if str_eq n name then without name ns else n ∷ without name ns

-- one round of the copying loop
module _ (fuel : ℕ) (alloc : Bool) (content : List ℕ) (end : ℕ) (name : List ℕ) (offset : ℕ)
    (new : List ℕ × ℕ) where
  copy_entries_ends :
      ltb offset end ≡ false → copy_entries (suc fuel) alloc content end name offset new ≡ some new
  copy_entries_ends e = unfold copy_entries in rw (e, copy_entries) refl

  copy_entries_line :
      (n : List ℕ)
      → ltb offset end ≡ true
      → read_line content (max_path + 1) offset ≡ some (n, length n + 1)
      → copy_entries (suc fuel) alloc content end name offset new ≡ (
          (if str_eq n name
            then some new
            else add_dentry_to_content alloc (max_path + 1) new.0 new.1 n)
          >>= copy_entries fuel alloc content end name (offset + (length n + 1)))
  copy_entries_line n e r = unfold copy_entries in rw (e, copy_entries) (rw r refl)

-- what the loop owes, from a new block that holds `kept`
abbrev pub Copies : List (List ℕ) → ℕ → Option (List ℕ × ℕ) → Type 0
Copies names size r = (block : List ℕ) × (r ≡ some (block, size)) × IsDir block size names

module _ (alloc : Bool) (content pad : List ℕ) (end size : ℕ) (name : List ℕ) where
  not_before : (offset : ℕ) → offset + 0 ≡ end → ltb offset end ≡ false
  not_before offset e = ground arith

  -- a name that is kept goes behind the others
  keep :
      (n : List ℕ) (names rest : List (List ℕ)) (block : List ℕ) (kept : List (List ℕ))
      (fuel offset : ℕ)
      → Added alloc (max_path + 1) block size kept n size
      → ((block' : List ℕ)
          → IsDir block' size (kept ++ n ∷ [])
          → Copies
              ((kept ++ n ∷ []) ++ rest)
              size
              (copy_entries fuel alloc content end name offset (block', size)))
      → Copies (kept ++ n ∷ rest) size (
          add_dentry_to_content alloc (max_path + 1) block size n
          >>= copy_entries fuel alloc content end name offset)
  keep n names rest block kept fuel offset (block', a, d) next =
      rw a (rw append_assoc at (next block' d))

  pub copy_entries-Copies :
      (names : List (List ℕ)) (fuel offset : ℕ) (block : List ℕ) (kept : List (List ℕ))
      → AllClean names
      → AllShort max_path names
      → drop offset content ≡ render names ++ 0 ∷ pad
      → offset + length (render names) ≡ end
      → length (render names) ≤ fuel
      → IsDir block size kept
      → length (render kept) + length (render names) < size
      → Copies
          (kept ++ without name names)
          size
          (copy_entries fuel alloc content end name offset (block, size))
  copy_entries-Copies [] zero offset block kept c s d e f h r =
      (block, unfold copy_entries in rw (not_before offset e) refl, rw append-nil h)
  copy_entries-Copies [] (suc fuel) offset block kept c s d e f h r = (
    block,
    copy_entries_ends fuel alloc content end name offset (block, size) (not_before offset e),
    rw append-nil h,
  )
  copy_entries-Copies (n ∷ names) zero offset block kept c s d e f h r =
      absurd (omega (arith, length-append n (newline ∷ render names)))
  copy_entries-Copies (n ∷ names) (suc fuel) offset block kept c s d e f h r =
      let total = length-append n (newline ∷ render names) in
      let ahead : drop offset content ≡ n ++ newline ∷ (render names ++ 0 ∷ pad) =
        d ∙ append_assoc n (newline ∷ render names) (0 ∷ pad) in
      let onward = drop-line content n (render names ++ 0 ∷ pad) offset ahead in
      rw
        (copy_entries_line fuel alloc content end name offset (block, size) n
          (ground (arith, total))
          (read_line-line content n (render names ++ 0 ∷ pad) (max_path + 1) offset c.0 ahead
            (omega (arith, s.0))))
        (elim (Bool-cases (str_eq n name)) [
          | inl same ↦ rw same (
              copy_entries-Copies names fuel (offset + (length n + 1)) block kept c.1 s.1 onward
                (omega (arith, total)) (omega (arith, total)) h (omega (arith, total)))
          | inr other ↦ rw other (
              keep n names (without name names) block kept fuel (offset + (length n + 1))
                ((add_dentry_to_content-IsDir alloc (max_path + 1) block size kept n h c.0
                    (omega (arith, s.0))).0
                  (omega (arith, total)))
                (λ block' d'.
                  copy_entries-Copies names fuel (offset + (length n + 1)) block' (kept ++ n ∷ [])
                    c.1 s.1 onward (omega (arith, total)) (omega (arith, total)) d'
                    (omega (
                      arith,
                      total,
                      ap length (render-append kept n),
                      length-append (render kept) (n ++ newline ∷ []),
                      length-append n (newline ∷ []),
                    ))))
        ])
