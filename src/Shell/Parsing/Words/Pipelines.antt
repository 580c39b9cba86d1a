-- ===== src/Shell/Parsing/Words/Pipelines.antt =====
-- Lines of commands with bars between them, and the tree that the parser builds.
use mathlib.Core.List.{append_assoc}
use tps_sistemas_operativos.Prelude.{
  ℕ, zero, suc, ◌+◌, ◌≤◌, ◌<◌, ◌≡◌, ◌≢◌, refl, ap, ◌∙◌, Bool, true, false, not, ◌&&◌, Option, some,
  List, [], ◌∷◌, ◌++◌, ◌==◌, length, arith, ==_of_ne, ==-refl, length-append, Bool-cases, inl, inr,
}
use tps_sistemas_operativos.Fisopfs.Buffer.{c_str}
use tps_sistemas_operativos.Fisopfs.Buffer.Laws.{NoZero, c_str-append}
use tps_sistemas_operativos.Shell.{space, maxargs, buflen, Cmd, fresh_exec, pipe_cmd_create}
use tps_sistemas_operativos.Shell.Parsing.{
  Setting, skip_spaces, split_line, block_contains, has, parse_plain, parse_cmd, parse_line,
}
use tps_sistemas_operativos.Shell.Parsing.Words.{
  Plain, Words, tail, text, Without, block_contains-Without, Without-append, Without-text,
  with_args, parse_exec-Words,
}

abbrev pub bar : ℕ
bar = 124

-- Commands of plain words that fit into the arrays of the parser.
abbrev pub Stages : List (List (List ℕ)) → Type 0
Stages [] = Unit
Stages (ws ∷ r) =
    Words ws × (0 < length ws) × (length (text ws true) < buflen) × (length ws < maxargs) × Stages r

-- the line of a pipeline: ` | ` between the commands
abbrev pub render : List (List (List ℕ)) → List ℕ
render [] = []
render (ws ∷ []) = text ws false
render (ws ∷ vs ∷ r) = text ws true ++ bar ∷ space ∷ render (vs ∷ r)

abbrev pub stage : List (List ℕ) → Bool → Cmd
stage ws b = Cmd.exec (with_args (fresh_exec (text ws b)) ws)

-- the tree of a pipeline
abbrev pub tree : List (List (List ℕ)) → Cmd
tree [] = Cmd.null
tree (ws ∷ []) = stage ws false
tree (ws ∷ vs ∷ r) = Cmd.pipe (stage ws true) (tree (vs ∷ r))

split_line-at :
    (xs : List ℕ) (c : ℕ) (behind right : List ℕ) (prev : ℕ)
    → Without bar xs
    → Without 0 xs
    → (not (c == bar) && not (c == 0)) ≡ false
    → skip_spaces 0 behind ≡ some (prev, right)
    → split_line (xs ++ c ∷ behind) bar ≡ some (xs, prev, right)
unfolding split_line
split_line-at [] c behind right prev h k e f = rw e (rw f refl)
split_line-at (x ∷ xs) c behind right prev h k e f =
    rw (==_of_ne x bar h.0)
      (rw (==_of_ne x 0 k.0) (rw (split_line-at xs c behind right prev h.1 k.1 e f) refl))

-- A string that begins with something else than a space.
abbrev Head : List ℕ → Type 0
Head [] = ⊥
Head (b ∷ bs) = b ≢ space

Head-append : (t p : List ℕ) → Head t → Head (t ++ p)
Head-append [] p h = absurd h
Head-append (b ∷ bs) p h = h

skip_spaces-Head : (prev : ℕ) (t : List ℕ) → Head t → skip_spaces prev t ≡ some (prev, t)
unfolding skip_spaces
skip_spaces-Head prev [] h = absurd h
skip_spaces-Head prev (b ∷ bs) h = rw (==_of_ne b space h) refl

Head-Plain : (w : List ℕ) → 0 < length w → Plain w → Head w
Head-Plain [] n h = absurd (omega arith)
Head-Plain (b ∷ bs) n h = h.0.not_space

Head-text : (ws : List (List ℕ)) (b : Bool) → Words ws → 0 < length ws → Head (text ws b)
Head-text [] b h n = absurd (omega arith)
Head-text (w ∷ []) b h n = Head-append w (tail b) (Head-Plain w h.0 h.1)
Head-text (w ∷ v ∷ vs) b h n = Head-append w (space ∷ text (v ∷ vs) b) (Head-Plain w h.0 h.1)

Head-render :
    (ws : List (List ℕ)) (r : List (List (List ℕ))) → Stages (ws ∷ r) → Head (render (ws ∷ r))
Head-render ws [] h = Head-text ws false h.0 h.1
Head-render ws (vs ∷ r) h =
    Head-append (text ws true) (bar ∷ space ∷ render (vs ∷ r)) (Head-text ws true h.0 h.1)

parse_cmd-plain :
    (s : Setting) (before : Option ℕ) (t : List ℕ)
    → Head t
    → Without 38 t
    → parse_cmd s before t ≡ parse_plain s t
parse_cmd-plain s before [] n h = absurd n
parse_cmd-plain s before (b ∷ bs) n h =
    unfold parse_cmd in rw (block_contains-Without (b ∷ bs) 38 h, parse_cmd) refl

parse_cmd-stage :
    (s : Setting) (before : Option ℕ) (ws : List (List ℕ)) (b : Bool)
    → Words ws
    → 0 < length ws
    → length (text ws b) < buflen
    → length ws < maxargs
    → parse_cmd s before (text ws b) ≡ some (stage ws b)
parse_cmd-stage s before ws b h n l room =
    parse_cmd-plain s before (text ws b) (Head-text ws b h n)
      (Without-text 38 (λ x o. o.not_ampersand) (λ e. absurd (omega arith)) ws b h)
    ∙ rw (parse_exec-Words s ws b h l room) refl

block_contains-found :
    (xs ys : List ℕ) (c : ℕ) → (i : ℕ) × (block_contains (xs ++ c ∷ ys) c ≡ some i)
unfolding block_contains
block_contains-found [] ys c = (0, rw (==-refl c) refl)
block_contains-found (x ∷ xs) ys c = elim (Bool-cases (x == c)) [
  | inl e ↦ (0, rw e refl)
  | inr e ↦ let (i, f) = block_contains-found xs ys c in (i + 1, rw e (rw f refl))
]

has-bar : (xs ys : List ℕ) → has (xs ++ bar ∷ ys) bar ≡ true
has-bar xs ys = let (i, f) = block_contains-found xs ys bar in rw (f, has) refl

has-text : (ws : List (List ℕ)) (b : Bool) → Words ws → has (text ws b) bar ≡ false
has-text ws b h =
    rw
      (
        block_contains-Without (text ws b) bar
            (Without-text bar (λ x o. o.not_bar) (λ e. absurd (omega arith)) ws b h),
        has,
      )
      refl

text_shorter : (ws : List (List ℕ)) → length (text ws false) ≤ length (text ws true)
text_shorter [] = omega arith
text_shorter (w ∷ []) = omega (arith, length-append w (space ∷ []), length-append w [])
text_shorter (w ∷ v ∷ vs) = omega (
  arith,
  length-append w (space ∷ text (v ∷ vs) true),
  length-append w (space ∷ text (v ∷ vs) false),
  text_shorter (v ∷ vs),
)

NoZero-Without : (t : List ℕ) → Without 0 t → NoZero t
NoZero-Without [] h = tt
NoZero-Without (b ∷ bs) h = (h.0, NoZero-Without bs h.1)

Without-zero : (ws : List (List ℕ)) (b : Bool) → Words ws → Without 0 (text ws b)
Without-zero ws b h = Without-text 0 (λ x o. o.not_end) (λ e. absurd (omega arith)) ws b h

Without-bar : (ws : List (List ℕ)) (b : Bool) → Words ws → Without bar (text ws b)
Without-bar ws b h = Without-text bar (λ x o. o.not_bar) (λ e. absurd (omega arith)) ws b h

Without-render : (r : List (List (List ℕ))) → Stages r → Without 0 (render r)
Without-render [] h = tt
Without-render (ws ∷ []) h = Without-zero ws false h.0
Without-render (ws ∷ vs ∷ r) h =
    Without-append 0 (text ws true) (bar ∷ space ∷ render (vs ∷ r)) (Without-zero ws true h.0)
      ((λ e. absurd (omega arith)), ((λ e. absurd (omega arith)), Without-render (vs ∷ r) h.4))

-- the end of a line: its terminator, and the zero behind it that `split_line` looks at
abbrev pub ended : List ℕ → List ℕ
ended pad = 0 ∷ 0 ∷ pad

module _ (fuel : ℕ) (s : Setting) (before : Option ℕ) (buf left right txt : List ℕ) (prev : ℕ)
    (l r : Cmd) where
  step_end :
      split_line buf bar ≡ some (left, prev, right)
      → c_str right ≡ some txt
      → has txt bar ≡ false
      → parse_cmd s (some prev) txt ≡ some r
      → parse_cmd s before left ≡ some l
      → parse_line (suc fuel) s before buf ≡ some (pipe_cmd_create l r)
  step_end e c h p q = unfold parse_line in rw e (rw c (rw h (rw p (rw q refl))))

  step_more :
      split_line buf bar ≡ some (left, prev, right)
      → c_str right ≡ some txt
      → has txt bar ≡ true
      → parse_line fuel s (some prev) right ≡ some r
      → parse_cmd s before left ≡ some l
      → parse_line (suc fuel) s before buf ≡ some (pipe_cmd_create l r)
  step_more e c h p q = unfold parse_line in rw e (rw c (rw h (rw p (rw q refl))))

line_last :
    (fuel : ℕ) (s : Setting) (before : Option ℕ) (ws : List (List ℕ)) (pad : List ℕ)
    → Stages (ws ∷ [])
    → parse_line (suc fuel) s before (text ws false ++ ended pad) ≡ some (stage ws false)
line_last fuel s before ws pad h =
    step_end fuel s before (text ws false ++ ended pad) (text ws false) (0 ∷ pad) [] 0
      (stage ws false) Cmd.null
      (split_line-at (text ws false) 0 (0 ∷ pad) (0 ∷ pad) 0 (Without-bar ws false h.0)
        (Without-zero ws false h.0) refl (skip_spaces-Head 0 (0 ∷ pad) (λ e. absurd (omega arith))))
      (c_str-append [] pad tt) (unfold block_contains in refl) (unfold parse_cmd in refl)
      (parse_cmd-stage s before ws false h.0 h.1 (omega (arith, h.2, text_shorter ws)) h.3)

skip_one : (t : List ℕ) → Head t → skip_spaces 0 (space ∷ t) ≡ some (space, t)
skip_one t h = unfold skip_spaces in skip_spaces-Head space t h

split_line-render :
    (ws vs : List (List ℕ)) (r : List (List (List ℕ))) (pad : List ℕ)
    → Stages (ws ∷ vs ∷ r)
    → split_line (render (ws ∷ vs ∷ r) ++ ended pad) bar
      ≡ some (text ws true, space, render (vs ∷ r) ++ ended pad)
split_line-render ws vs r pad h =
    ap (λ l. split_line l bar)
      (append_assoc (text ws true) (bar ∷ space ∷ render (vs ∷ r)) (ended pad))
    ∙ split_line-at (text ws true) bar (space ∷ (render (vs ∷ r) ++ ended pad))
        (render (vs ∷ r) ++ ended pad) space (Without-bar ws true h.0) (Without-zero ws true h.0)
        refl
        (skip_one (render (vs ∷ r) ++ ended pad)
          (Head-append (render (vs ∷ r)) (ended pad) (Head-render vs r h.4)))

-- `parse_line` of a pipeline of plain words that fit into the arrays gives the tree of the
-- pipeline, each command with exactly its words, when a second zero follows the line and there are
-- as many calls as commands.
pub parse_line-Stages :
    (fuel : ℕ) (s : Setting) (before : Option ℕ) (ws : List (List ℕ)) (r : List (List (List ℕ)))
    (pad : List ℕ)
    → Stages (ws ∷ r)
    → length r < fuel
    → parse_line fuel s before (render (ws ∷ r) ++ ended pad) ≡ some (tree (ws ∷ r))
parse_line-Stages zero s before ws r pad h f = absurd (omega arith)
parse_line-Stages (suc fuel) s before ws [] pad h f = line_last fuel s before ws pad h
parse_line-Stages (suc fuel) s before ws (vs ∷ []) pad h f =
    step_end fuel s before (render (ws ∷ vs ∷ []) ++ ended pad) (text ws true)
      (text vs false ++ ended pad) (text vs false) space (stage ws true) (stage vs false)
      (split_line-render ws vs [] pad h)
      (c_str-append (text vs false) (0 ∷ pad)
        (NoZero-Without (text vs false) (Without-zero vs false h.4.0)))
      (has-text vs false h.4.0)
      (parse_cmd-stage s (some space) vs false h.4.0 h.4.1 (omega (arith, h.4.2, text_shorter vs))
        h.4.3)
      (parse_cmd-stage s before ws true h.0 h.1 h.2 h.3)
parse_line-Stages (suc fuel) s before ws (vs ∷ us ∷ r) pad h f =
    step_more fuel s before (render (ws ∷ vs ∷ us ∷ r) ++ ended pad) (text ws true)
      (render (vs ∷ us ∷ r) ++ ended pad) (render (vs ∷ us ∷ r)) space (stage ws true)
      (tree (vs ∷ us ∷ r)) (split_line-render ws vs (us ∷ r) pad h)
      (c_str-append (render (vs ∷ us ∷ r)) (0 ∷ pad)
        (NoZero-Without (render (vs ∷ us ∷ r)) (Without-render (vs ∷ us ∷ r) h.4)))
      (has-bar (text vs true) (space ∷ render (us ∷ r)))
      (parse_line-Stages fuel s (some space) vs (us ∷ r) pad h.4 (omega arith))
      (parse_cmd-stage s before ws true h.0 h.1 h.2 h.3)
