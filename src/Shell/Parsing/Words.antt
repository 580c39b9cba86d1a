-- ===== src/Shell/Parsing/Words.antt =====
-- Commands of plain words, and what the parser makes of them.
pub mod Pipelines
use mathlib.Core.List.{append_assoc, append-nil}
use tps_sistemas_operativos.Prelude.{
  ℕ, zero, suc, ◌+◌, ◌≤◌, ◌<◌, ◌≡◌, ◌≢◌, refl, sym, ap, ◌∙◌, Bool, true, false, not, ◌&&◌, Option,
  none, some, List, [], ◌∷◌, ◌++◌, ◌==◌, ltb, if◌then◌else◌, ◌>>=◌, length, drop, arith, ==_of_ne,
  length-append,
}
use tps_sistemas_operativos.Fisopfs.Buffer.Laws.{drop-past}
use tps_sistemas_operativos.Shell.{space, maxargs, argsize, buflen, ExecCmd, fresh_exec}
use tps_sistemas_operativos.Shell.Parsing.{
  Setting, block_contains, token, parse_redir_flow, is_environ_var, expand_environ_var, parse_token,
  parse_loop, parse_exec,
}

-- A byte that means nothing to the parser.
pub record Ordinary (b : ℕ) : Type 0 where
  pub not_end : b ≢ 0
  pub not_space : b ≢ space
  pub not_dollar : b ≢ 36
  pub not_ampersand : b ≢ 38
  pub not_less : b ≢ 60
  pub not_equal : b ≢ 61
  pub not_greater : b ≢ 62
  pub not_bar : b ≢ 124

abbrev pub Plain : List ℕ → Type 0
Plain [] = Unit
Plain (b ∷ bs) = Ordinary b × Plain bs

abbrev pub Words : List (List ℕ) → Type 0
Words [] = Unit
Words (w ∷ ws) = (0 < length w) × Plain w × Words ws

abbrev pub tail : Bool → List ℕ
tail true = space ∷ []
tail false = []

-- the words with a space between them, and one at the end if `b` says so
abbrev pub text : List (List ℕ) → Bool → List ℕ
text [] b = []
text (w ∷ []) b = w ++ tail b
text (w ∷ v ∷ vs) b = w ++ space ∷ text (v ∷ vs) b

abbrev pub Without : ℕ → List ℕ → Type 0
Without c [] = Unit
Without c (b ∷ bs) = (b ≢ c) × Without c bs

pub block_contains-Without : (s : List ℕ) (c : ℕ) → Without c s → block_contains s c ≡ none
unfolding block_contains
block_contains-Without [] c h = refl
block_contains-Without (b ∷ bs) c h =
    rw (==_of_ne b c h.0) (rw (block_contains-Without bs c h.1) refl)

pub Without-append : (c : ℕ) (xs ys : List ℕ) → Without c xs → Without c ys → Without c (xs ++ ys)
Without-append c [] ys h k = k
Without-append c (x ∷ xs) ys h k = (h.0, Without-append c xs ys h.1 k)

pub Without-Plain : (c : ℕ) → ((b : ℕ) → Ordinary b → b ≢ c) → (w : List ℕ) → Plain w → Without c w
Without-Plain c f [] h = tt
Without-Plain c f (b ∷ bs) h = (f b h.0, Without-Plain c f bs h.1)

pub Without-text :
    (c : ℕ)
    → ((b : ℕ) → Ordinary b → b ≢ c)
    → space ≢ c
    → (ws : List (List ℕ)) (b : Bool) → Words ws
    → Without c (text ws b)
Without-text c f n [] b h = tt
Without-text c f n (w ∷ []) true h =
    Without-append c w (space ∷ []) (Without-Plain c f w h.1) (n, tt)
Without-text c f n (w ∷ []) false h = Without-append c w [] (Without-Plain c f w h.1) tt
Without-text c f n (w ∷ v ∷ vs) b h =
    Without-append c w (space ∷ text (v ∷ vs) b) (Without-Plain c f w h.1)
      (n, Without-text c f n (v ∷ vs) b h.2)

token-Plain : (w rest : List ℕ) → Plain w → token (w ++ space ∷ rest) ≡ w
unfolding token
token-Plain [] rest h = refl
token-Plain (b ∷ bs) rest h =
    rw (==_of_ne b space h.0.not_space) (ap (λ l. b ∷ l) (token-Plain bs rest h.1))

token-last : (w : List ℕ) → Plain w → token w ≡ w
unfolding token
token-last [] h = refl
token-last (b ∷ bs) h = rw (==_of_ne b space h.0.not_space) (ap (λ l. b ∷ l) (token-last bs h.1))

expand_environ_var-Plain : (s : Setting) (w : List ℕ) → Plain w → expand_environ_var s w ≡ w
unfolding expand_environ_var
expand_environ_var-Plain s [] h = refl
expand_environ_var-Plain s (b ∷ []) h = refl
expand_environ_var-Plain s (b ∷ c ∷ cs) h = rw (==_of_ne b 36 h.0.not_dollar) refl

abbrev pub with_args : ExecCmd → List (List ℕ) → ExecCmd
with_args c ws = record c { argv = c.argv ++ ws }

parse_redir_flow-Plain : (c : ExecCmd) (w : List ℕ) → Plain w → parse_redir_flow c w ≡ none
parse_redir_flow-Plain c w h =
    unfold parse_redir_flow in
    rw (block_contains-Without w 62 (Without-Plain 62 (λ x o. o.not_greater) w h), parse_redir_flow)
      (rw (block_contains-Without w 60 (Without-Plain 60 (λ x o. o.not_less) w h), parse_redir_flow)
        refl)

is_environ_var-Plain : (w : List ℕ) → Plain w → is_environ_var w ≡ false
is_environ_var-Plain w h =
    unfold is_environ_var in
    rw (block_contains-Without w 61 (Without-Plain 61 (λ x o. o.not_equal) w h), is_environ_var)
      refl

parse_token-Plain :
    (s : Setting) (c : ExecCmd) (w : List ℕ)
    → 0 < length w
    → Plain w
    → length c.argv < maxargs
    → parse_token s c w ≡ some (with_args c (w ∷ []))
parse_token-Plain s c [] n h room = absurd (omega arith)
parse_token-Plain s c (b ∷ bs) n h room =
    unfold parse_token in
    rw (parse_redir_flow-Plain c (b ∷ bs) h, parse_token)
      (rw (is_environ_var-Plain (b ∷ bs) h)
        (rw (expand_environ_var-Plain s (b ∷ bs) h) (rw stored refl)))
  where
    stored : ltb (length c.argv) maxargs ≡ true
    stored = ground arith

-- one round of the loop on a string that begins with a word
loop_word :
    (fuel : ℕ) (s : Setting) (c : ExecCmd) (w buf rest : List ℕ)
    → 0 < length w
    → Plain w
    → token (w ++ buf) ≡ w
    → drop (length w + 1) (w ++ buf) ≡ rest
    → length w < argsize
    → length c.argv < maxargs
    → parse_loop (suc fuel) s c (w ++ buf) ≡ parse_loop fuel s (with_args c (w ∷ [])) rest
loop_word fuel s c [] buf rest n h t d l room = absurd (omega arith)
loop_word fuel s c (b ∷ bs) buf rest n h t d l room =
    unfold parse_loop in
    rw t (
      rw short (
        rw (parse_token-Plain s c (b ∷ bs) n h room)
          (ap (parse_loop fuel s (with_args c ((b ∷ bs) ∷ []))) d)))
  where
    short : ltb (length (b ∷ bs)) argsize ≡ true
    short = ground arith

token-tail : (w : List ℕ) (b : Bool) → Plain w → token (w ++ tail b) ≡ w
token-tail w true h = token-Plain w [] h
token-tail w false h = ap token (append-nil w) ∙ token-last w h

drop-tail : (w : List ℕ) (b : Bool) → drop (length w + 1) (w ++ tail b) ≡ []
drop-tail w true = drop-past w (tail true) 1
drop-tail w false = drop-past w (tail false) 1

loop_done : (fuel : ℕ) (s : Setting) (c : ExecCmd) → parse_loop fuel s c [] ≡ some c
unfolding parse_loop
loop_done zero s c = refl
loop_done (suc fuel) s c = refl

parse_loop-text :
    (ws : List (List ℕ)) (b : Bool) (fuel : ℕ) (s : Setting) (c : ExecCmd)
    → Words ws
    → length (text ws b) ≤ fuel
    → length (text ws b) < argsize
    → length c.argv + length ws ≤ maxargs
    → parse_loop fuel s c (text ws b) ≡ some (with_args c ws)
parse_loop-text [] b fuel s c h f l room =
    loop_done fuel s c ∙ ap (λ a. some (record c { argv = a })) (sym (append-nil c.argv))
parse_loop-text (w ∷ []) b zero s c h f l room =
    absurd (omega (arith, length-append w (tail b), h.0))
parse_loop-text (w ∷ []) b (suc fuel) s c h f l room =
    loop_word fuel s c w (tail b) [] h.0 h.1 (token-tail w b h.1) (drop-tail w b)
      (omega (arith, length-append w (tail b))) (omega arith)
    ∙ loop_done fuel s (with_args c (w ∷ []))
parse_loop-text (w ∷ v ∷ vs) b zero s c h f l room =
    absurd (omega (arith, length-append w (space ∷ text (v ∷ vs) b)))
parse_loop-text (w ∷ v ∷ vs) b (suc fuel) s c h f l room =
    let total = length-append w (space ∷ text (v ∷ vs) b) in
    loop_word fuel s c w (space ∷ text (v ∷ vs) b) (text (v ∷ vs) b) h.0 h.1
      (token-Plain w (text (v ∷ vs) b) h.1) (drop-past w (space ∷ text (v ∷ vs) b) 1)
      (omega (arith, total)) (omega arith)
    ∙ (parse_loop-text (v ∷ vs) b fuel s (with_args c (w ∷ [])) h.2 (omega (arith, total))
          (omega (arith, total)) (omega (arith, length-append c.argv (w ∷ [])))
        ∙ ap (λ a. some (record c { argv = a })) (append_assoc c.argv (w ∷ []) (v ∷ vs)))

-- `parse_exec` of plain words takes exactly them as the arguments, if the string is shorter than
-- its array and there are fewer of them than the array of arguments has places.
pub parse_exec-Words :
    (s : Setting) (ws : List (List ℕ)) (b : Bool)
    → Words ws
    → length (text ws b) < buflen
    → length ws < maxargs
    → parse_exec s (text ws b) ≡ some (with_args (fresh_exec (text ws b)) ws)
parse_exec-Words s ws b h l room =
    unfold parse_exec in
    rw short (
      rw
        (parse_loop-text ws b (length (text ws b)) s (fresh_exec (text ws b)) h (omega arith) l
          (omega arith))
        (rw few refl))
  where
    short : ltb (length (text ws b)) buflen ≡ true
    short = ground arith

    few : ltb (length ws) maxargs ≡ true
    few = ground arith
