-- ===== src/Fisopfs/File/Dir.antt =====
-- The content of a directory as the list of its names, and what adding one does to it.
pub mod Add
pub mod Lines
use mathlib.Core.List.{append_assoc}
use tps_sistemas_operativos.Prelude.{
  ℕ, zero, suc, ◌+◌, ◌-◌, ◌≤◌, ◌<◌, ◌≡◌, ◌≢◌, refl, sym, ap, ap₂, ◌∙◌, Bool, true, false, Option,
  none, some, List, [], ◌∷◌, ◌++◌, ◌==◌, ltb, leb, if◌then◌else◌, ◌>>=◌, arith, length, take, drop,
  replicate, length-append, length-replicate, subst, ◌⊎◌, inl, inr,
}
use tps_sistemas_operativos.Fisopfs.{initial_content_length}
use tps_sistemas_operativos.Fisopfs.Buffer.{newline, c_str, strlen, write_at, strcpy_at}
use tps_sistemas_operativos.Fisopfs.Buffer.Laws.{
  NoZero, NoZero-append, Split, c_str-append, c_str-Split, take-append, write_at-end, write_at-none,
  drop-past,
}
use tps_sistemas_operativos.Fisopfs.File.{recalloc}

-- A name that can be an entry: no terminator and no newline in it.
abbrev pub Clean : List ℕ → Type 0
Clean [] = Unit
Clean (b ∷ bs) = (b ≢ 0) × (b ≢ newline) × Clean bs

abbrev pub AllClean : List (List ℕ) → Type 0
AllClean [] = Unit
AllClean (n ∷ ns) = Clean n × AllClean ns

abbrev pub render : List (List ℕ) → List ℕ
render [] = []
render (n ∷ ns) = n ++ newline ∷ render ns

-- The block holds the names, one to a line, and all of it was allocated.
pub record IsDir (block : List ℕ) (size : ℕ) (names : List (List ℕ)) : Type 0 where
  pub text : c_str block ≡ some (render names)
  pub sized : length block ≡ size
  pub clean : AllClean names

pub NoZero-Clean : (n : List ℕ) → Clean n → NoZero n
NoZero-Clean [] h = tt
NoZero-Clean (b ∷ bs) h = (h.0, NoZero-Clean bs h.2)

pub NoZero-render : (ns : List (List ℕ)) → AllClean ns → NoZero (render ns)
NoZero-render [] h = tt
NoZero-render (n ∷ ns) h =
    NoZero-append n (newline ∷ render ns) (NoZero-Clean n h.0)
      ((λ e. absurd (omega arith)), NoZero-render ns h.1)

pub render-append :
    (ns : List (List ℕ)) (n : List ℕ) → render (ns ++ n ∷ []) ≡ render ns ++ (n ++ newline ∷ [])
render-append [] n = refl
render-append (m ∷ ns) n =
    ap (λ l. m ++ newline ∷ l) (render-append ns n)
    ∙ sym (append_assoc m (newline ∷ render ns) (n ++ newline ∷ []))

pub AllClean-append :
    (ns : List (List ℕ)) (n : List ℕ) → AllClean ns → Clean n → AllClean (ns ++ n ∷ [])
AllClean-append [] n h k = (k, tt)
AllClean-append (m ∷ ns) n h k = (h.0, AllClean-append ns n h.1 k)

pub drop-replicate : (k n m a : ℕ) → n ≡ k + m → drop k (replicate n a) ≡ replicate m a
drop-replicate zero n m a e = ap (λ x. replicate x a) (omega arith)
drop-replicate (suc k) zero m a e = absurd (omega arith)
drop-replicate (suc k) (suc n) m a e = drop-replicate k n m a (omega arith)

-- A new block that begins with a string of the old one is zero behind it.
pub recalloc-string :
    (s pad : List ℕ) (n m : ℕ)
    → n ≡ length s + suc m
    → recalloc (s ++ 0 ∷ pad) (length s) n ≡ some (s ++ 0 ∷ replicate m 0)
unfolding recalloc write_at
recalloc-string s pad n m e = rw (fits_old) (
    rw (take-append s (0 ∷ pad)) (
      rw (fits_new)
        (ap (λ l. some (s ++ l)) (drop-replicate (0 + length s) n (suc m) 0 (omega arith)))))
  where
    fits_old : leb (length s) (length (s ++ 0 ∷ pad)) ≡ true
    fits_old = ground (arith, length-append s (0 ∷ pad))

    fits_new : leb (0 + length s) (length (replicate {A = ℕ} n 0)) ≡ true
    fits_new = ground (arith, length-replicate {A = ℕ} n 0)

pub strlen-string : (block s : List ℕ) → c_str block ≡ some s → strlen block ≡ some (length s)
unfolding strlen
strlen-string block s e = rw e

-- what a write of a line at the end of a string leaves
pub write-line :
    (s pad line : List ℕ)
    → NoZero s
    → NoZero line
    → length line ≤ length pad
    → (block : List ℕ) × (strcpy_at (s ++ 0 ∷ pad) (length s) line ≡ some block)
      × (c_str block ≡ some (s ++ line))
      × (length block ≡ length s + length pad + 1)
write-line s pad line hs hl room =
    finish (write_at-end s pad (line ++ 0 ∷ []) (omega (arith, length-append line (0 ∷ []))))
  where
    regroup : (rest : List ℕ) → s ++ ((line ++ 0 ∷ []) ++ rest) ≡ (s ++ line) ++ 0 ∷ rest
    regroup rest =
        ap (λ l. s ++ l) (append_assoc line (0 ∷ []) rest) ∙ sym (append_assoc s line (0 ∷ rest))

    finish :
        (rest : List ℕ) × (write_at (s ++ 0 ∷ pad) (length s) (line ++ 0 ∷ [])
            ≡ some (s ++ ((line ++ 0 ∷ []) ++ rest)))
          × (length rest + length (line ++ 0 ∷ []) ≡ length pad + 1)
        → (block : List ℕ) × (strcpy_at (s ++ 0 ∷ pad) (length s) line ≡ some block)
          × (c_str block ≡ some (s ++ line))
          × (length block ≡ length s + length pad + 1)
    finish (rest, e, l) = (
      s ++ ((line ++ 0 ∷ []) ++ rest),
      e,
      (ap c_str (regroup rest) ∙ c_str-append (s ++ line) rest (NoZero-append s line hs hl)),
      omega (
        arith,
        l,
        length-append s ((line ++ 0 ∷ []) ++ rest),
        length-append (line ++ 0 ∷ []) rest,
      ),
    )
