-- ===== src/Fisopfs/File/Dir/Add.antt =====
-- What adding an entry does to a directory.
use tps_sistemas_operativos.Prelude.{
  ℕ, ◌+◌, ◌≤◌, ◌<◌, ◌≡◌, refl, sym, ap, ◌∙◌, Bool, true, false, none, some, List, [], ◌∷◌, ◌++◌,
  ltb, leb, ◌>>=◌, arith, length, replicate, length-append, length-replicate, subst,
}
use tps_sistemas_operativos.Fisopfs.{initial_content_length}
use tps_sistemas_operativos.Fisopfs.Buffer.{newline, strlen, strcpy_at}
use tps_sistemas_operativos.Fisopfs.Buffer.Laws.{
  NoZero, NoZero-append, Split, c_str-append, c_str-Split, write_at-none,
}
use tps_sistemas_operativos.Fisopfs.File.{recalloc, append_dentry, add_dentry_to_content}
use tps_sistemas_operativos.Fisopfs.File.Dir.{
  Clean, AllClean, render, IsDir, NoZero-Clean, NoZero-render, render-append, AllClean-append,
  recalloc-string, strlen-string, write-line,
}

-- The three ways through `append_dentry`.
module _ (block : List ℕ) (n size : ℕ) (name : List ℕ) (measured : strlen block ≡ some n) where
  abbrev text : List ℕ
  text = name ++ newline ∷ []

  add_dentry_in_place :
      (alloc : Bool)
      → ltb size (n + length text) ≡ false
      → append_dentry alloc block size name ≡ (strcpy_at block n text >>= λ b. some (b, size))
  unfolding append_dentry
  add_dentry_in_place alloc small = rw measured (rw small refl)

  add_dentry_moved :
      (new : List ℕ)
      → ltb size (n + length text) ≡ true
      → recalloc block n (size + length text + initial_content_length) ≡ some new
      → append_dentry true block size name
        ≡ (strcpy_at new n text >>= λ b. some (b, size + length text + initial_content_length))
  unfolding append_dentry
  add_dentry_moved new large e = rw measured (rw large (rw e refl))

-- what the call owes: the new block with its size, which holds one more name
abbrev Appended : Bool → List ℕ → ℕ → List (List ℕ) → List ℕ → ℕ → Type 0
Appended alloc block size names name size' =
    (block' : List ℕ) × (append_dentry alloc block size name ≡ some (block', size'))
    × IsDir block' size' (names ++ name ∷ [])

-- the same for the whole call, with an entry in a buffer of `capacity` bytes
abbrev pub Added : Bool → ℕ → List ℕ → ℕ → List (List ℕ) → List ℕ → ℕ → Type 0
Added alloc capacity block size names name size' =
    (block' : List ℕ) × (add_dentry_to_content alloc capacity block size name
      ≡ some (block', size'))
    × IsDir block' size' (names ++ name ∷ [])

module _ (alloc : Bool) (capacity : ℕ) (block : List ℕ) (size : ℕ) (name : List ℕ)
    (room : length name + 2 ≤ capacity) where
  add_dentry_to_content-append_dentry :
      add_dentry_to_content alloc capacity block size name ≡ append_dentry alloc block size name
  add_dentry_to_content-append_dentry =
      let t : leb (length name + 2) capacity ≡ true = ground arith in
      unfold add_dentry_to_content in rw t refl

  Added-Appended :
      (names : List (List ℕ)) (size' : ℕ)
      → Appended alloc block size names name size'
      → Added alloc capacity block size names name size'
  Added-Appended names size' (b, e, d) = (b, add_dentry_to_content-append_dentry ∙ e, d)

module _ (names : List (List ℕ)) (name : List ℕ) (clean : AllClean names)
    (clean' : Clean name) where
  abbrev line : List ℕ
  line = name ++ newline ∷ []

  NoZero-line : NoZero line
  NoZero-line =
      NoZero-append name (newline ∷ []) (NoZero-Clean name clean') ((λ e. absurd (omega arith)), tt)

  length-line : length line ≡ length name + 1
  length-line = omega (arith, length-append name (newline ∷ []))

  -- the write at the end, into a block with enough room
  append_line :
      (pad : List ℕ) (size : ℕ)
      → length name + 1 ≤ length pad
      → length (render names) + length pad + 1 ≡ size
      → (block' : List ℕ) × (strcpy_at (render names ++ 0 ∷ pad) (length (render names)) line
          ≡ some block')
        × IsDir block' size (names ++ name ∷ [])
  append_line pad size room e =
      let (block', w, c, l) =
        write-line (render names) pad line (NoZero-render names clean) NoZero-line
          (omega (arith, length-line)) in
      (
        block',
        w,
        record {
          text = c ∙ ap some (sym (render-append names name));
          sized = l ∙ e;
          clean = AllClean-append names name clean clean';
        },
      )

  Appended-fits :
      (alloc : Bool) (pad : List ℕ) (size : ℕ)
      → length (render names) + length pad + 1 ≡ size
      → length (render names) + length name + 1 < size
      → Appended alloc (render names ++ 0 ∷ pad) size names name size
  Appended-fits alloc pad size e room =
      let (block', w, d) = append_line pad size (omega arith) e in
      (
        block',
        add_dentry_in_place (render names ++ 0 ∷ pad) (length (render names)) size name
              (strlen-string (render names ++ 0 ∷ pad) (render names)
                (c_str-append (render names) pad (NoZero-render names clean)))
              alloc (ground (arith, length-line))
            ∙ ap (λ o. o >>= λ b. some (b, size)) w,
        d,
      )

  Appended-grows :
      (pad : List ℕ) (size : ℕ)
      → length (render names) + length pad + 1 ≡ size
      → size < length (render names) + length name + 1
      → Appended true
          (render names ++ 0 ∷ pad)
          size
          names
          name
          (size + (length name + 1) + initial_content_length)
  Appended-grows pad size e room =
      let new = length pad + (length name + 1) + initial_content_length in
      let size' = size + (length name + 1) + initial_content_length in
      let (block', w, d) =
        append_line (replicate new 0) size' (omega (arith, length-replicate {A = ℕ} new 0))
          (omega (arith, length-replicate {A = ℕ} new 0)) in
      (
        block',
        add_dentry_moved (render names ++ 0 ∷ pad) (length (render names)) size name
              (strlen-string (render names ++ 0 ∷ pad) (render names)
                (c_str-append (render names) pad (NoZero-render names clean)))
              (render names ++ 0 ∷ replicate new 0) (ground (arith, length-line))
              (recalloc-string (render names) pad (size + length line + initial_content_length) new
                (omega (arith, length-line)))
            ∙ ap (λ o. o >>= λ b. some (b, size + length line + initial_content_length)) w
            ∙ ap (λ x. some (block', size + x + initial_content_length)) length-line,
        d,
      )

  overflows :
      (alloc : Bool) (pad : List ℕ) (size : ℕ)
      → length (render names) + length pad + 1 ≡ size
      → length (render names) + length name + 1 ≡ size
      → append_dentry alloc (render names ++ 0 ∷ pad) size name ≡ none
  overflows alloc pad size e full =
      add_dentry_in_place (render names ++ 0 ∷ pad) (length (render names)) size name
        (strlen-string (render names ++ 0 ∷ pad) (render names)
          (c_str-append (render names) pad (NoZero-render names clean)))
        alloc (ground (arith, length-line))
      ∙ ap (λ o. o >>= λ b. some (b, size))
          (write_at-none (render names ++ 0 ∷ pad) (line ++ 0 ∷ []) (length (render names)) (
            omega (
              arith,
              length-line,
              length-append line (0 ∷ []),
              length-append (render names) (0 ∷ pad),
            )))

-- On a directory block and a clean name in a buffer with room for a newline and a terminator,
-- `add_dentry_to_content` puts the name behind the others, in the same block while the text with its
-- terminator is shorter than the block, and in a block that is longer by the line and 1024 bytes
-- when the text is longer than the old one. When the text is exactly as long as the block, the
-- terminator is written outside of it.
pub add_dentry_to_content-IsDir :
    (alloc : Bool) (capacity : ℕ) (block : List ℕ) (size : ℕ) (names : List (List ℕ))
    (name : List ℕ)
    → IsDir block size names
    → Clean name
    → length name + 2 ≤ capacity
    → (length (render names) + length name + 1 < size
        → Added alloc capacity block size names name size)
      × (size < length (render names) + length name + 1
          → Added true capacity block size names name
              (size + (length name + 1) + initial_content_length))
      × (length (render names) + length name + 1 ≡ size
          → add_dentry_to_content alloc capacity block size name ≡ none)
add_dentry_to_content-IsDir alloc capacity block size names name d clean room =
    let (fits, grows, over) = finish (c_str-Split block (render names) d.text) in
    (
      λ h. Added-Appended alloc capacity block size name room names size (fits h),
      λ h.
          Added-Appended true capacity block size name room names
            (size + (length name + 1) + initial_content_length) (grows h),
      λ h. add_dentry_to_content-append_dentry alloc capacity block size name room ∙ over h,
    )
  where
    Three : List ℕ → Type 0
    Three b =
        (length (render names) + length name + 1 < size → Appended alloc b size names name size)
        × (size < length (render names) + length name + 1
            → Appended true b size names name (size + (length name + 1) + initial_content_length))
        × (length (render names) + length name + 1 ≡ size → append_dentry alloc b size name ≡ none)

    finish : Split block (render names) → Three block
    finish (pad, e, nz) =
        let sum : length (render names) + length pad + 1 ≡ size =
          omega (arith, ap length e, d.sized, length-append (render names) (0 ∷ pad)) in
        subst Three (sym e) (
          Appended-fits names name d.clean clean alloc pad size sum,
          Appended-grows names name d.clean clean pad size sum,
          overflows names name d.clean clean alloc pad size sum,
        )
