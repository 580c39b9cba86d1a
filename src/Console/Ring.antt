-- ===== src/Console/Ring.antt =====
-- The ring as a queue of characters.
use mathlib.Core.List.{append_assoc, append-nil}
use tps_sistemas_operativos.Prelude.{
  ℕ, zero, suc, ◌+◌, ◌-◌, ◌%◌, ◌≤◌, ◌<◌, ◌≡◌, ◌≢◌, refl, sym, ap, ap₂, ◌∙◌, subst, true, false,
  List, [], ◌∷◌, ◌++◌, ◌==◌, if◌then◌else◌, update, arith, Bool-cases, inl, inr,
}
use tps_sistemas_operativos.Console.{consbufsize, Cons, next_pos, put, cons_intr, cons_getc}

abbrev pub window : (ℕ → ℕ) → ℕ → ℕ → List ℕ
window f b zero = []
window f b (suc n) = f (b % consbufsize) ∷ window f (b + 1) n

abbrev pub size : Cons → ℕ
size q = (q.wpos + consbufsize - q.rpos) % consbufsize

-- the characters that wait, the oldest first
abbrev pub waiting : Cons → List ℕ
waiting q = window q.buf q.rpos (size q)

pub record IsRing (q : Cons) : Type 0 where
  pub reads : q.rpos < consbufsize
  pub writes : q.wpos < consbufsize

-- the characters of a device that `cons_intr` keeps
abbrev pub kept : List ℕ → List ℕ
kept [] = []
kept (c ∷ cs) = if c == 0 then kept cs else c % 256 ∷ kept cs

abbrev pub how_many : List ℕ → ℕ
how_many [] = 0
how_many (c ∷ cs) = if c == 0 then how_many cs else how_many cs + 1

window-update_end :
    (f : ℕ → ℕ) (b n i v : ℕ)
    → n < consbufsize
    → i ≡ (b + n) % consbufsize
    → window (update f i v) b (suc n) ≡ window f b n ++ v ∷ []
window-update_end f b zero i v h e = ap (λ k. k ∷ []) (ground arith)
window-update_end f b (suc n) i v h e =
    ap₂ ◌∷◌ (ground arith) (window-update_end f (b + 1) n i v (omega arith) (omega arith))

window-shift :
    (f : ℕ → ℕ) (b c n : ℕ) → b % consbufsize ≡ c % consbufsize → window f b n ≡ window f c n
window-shift f b c zero e = refl
window-shift f b c (suc n) e = ap₂ ◌∷◌ (ap f e) (window-shift f (b + 1) (c + 1) n (omega arith))

put-IsRing : (c : ℕ) (q : Cons) → IsRing q → IsRing (put c q)
put-IsRing c q r = record { reads = r.reads; writes = ground (arith, r.writes) }

size-put : (c : ℕ) (q : Cons) → IsRing q → size q < 511 → size (put c q) ≡ suc (size q)
size-put c q r h = elim (Bool-cases (q.wpos + 1 == consbufsize)) [
  | inl t ↦ let e : q.wpos + 1 ≡ 512 = ground arith in rw t (omega (arith, e, h, r.reads))
  | inr t ↦ let e : q.wpos + 1 ≢ 512 = ground arith in rw t (omega (arith, e, h, r.reads, r.writes))
]

waiting-put :
    (c : ℕ) (q : Cons) → IsRing q → size q < 511 → waiting (put c q) ≡ waiting q ++ c % 256 ∷ []
waiting-put c q r h =
    ap (window (update q.buf q.wpos (c % 256)) q.rpos) (size-put c q r h)
    ∙ window-update_end q.buf q.rpos (size q) q.wpos (c % 256) (omega (arith, h))
        (omega (arith, r.reads, r.writes))

-- What is left after a device gave characters that fit.
pub record Takes (q : Cons) (cs : List ℕ) (after : Cons) : Type 0 where
  pub ring : IsRing after
  pub queued : waiting after ≡ waiting q ++ kept cs
  pub length : size after ≡ size q + how_many cs

Takes-put :
    (c : ℕ) (cs : List ℕ) (q after : Cons)
    → IsRing q
    → size q < 511
    → Takes (put c q) cs after
    → (waiting after ≡ waiting q ++ (c % 256 ∷ kept cs)) × (size after ≡ size q + (how_many cs + 1))
Takes-put c cs q after r h t = (
  t.queued
      ∙ ap (λ xs. xs ++ kept cs) (waiting-put c q r h)
      ∙ append_assoc (waiting q) (c % 256 ∷ []) (kept cs),
  omega (arith, t.length, size-put c q r h),
)

-- `cons_intr` appends what fits, in order, without the zeros.
cons_intr-Takes :
    (cs : List ℕ) (q : Cons) → IsRing q → size q + how_many cs ≤ 511 → Takes q cs (cons_intr cs q)
cons_intr-Takes [] q r h =
    unfold cons_intr in
    record { ring = r; queued = sym (append-nil (waiting q)); length = omega arith }
cons_intr-Takes (c ∷ cs) q r h = elim (Bool-cases (c == 0)) [
  | inl z ↦ skipped z (cons_intr-Takes cs q r (ground (arith, h)))
  | inr z ↦
      let room : size q < 511 = ground (arith, h) in
      added z room (
        cons_intr-Takes cs (put c q) (put-IsRing c q r)
          (omega (arith, size-put c q r room, fits z)))
]
  where
    fits : (c == 0) ≡ false → size q + how_many cs + 1 ≤ 511
    fits z = ground (arith, h)

    skips : (c == 0) ≡ true → cons_intr (c ∷ cs) q ≡ cons_intr cs q
    skips z = unfold cons_intr in rw z refl

    puts : (c == 0) ≡ false → cons_intr (c ∷ cs) q ≡ cons_intr cs (put c q)
    puts z = unfold cons_intr in rw z refl

    skipped :
        (c == 0) ≡ true → Takes q cs (cons_intr cs q) → Takes q (c ∷ cs) (cons_intr (c ∷ cs) q)
    skipped z t =
        subst (Takes q (c ∷ cs)) (sym (skips z))
          (record { ring = t.ring; queued = rw z t.queued; length = rw z t.length })

    added :
        (c == 0) ≡ false
        → size q < 511
        → Takes (put c q) cs (cons_intr cs (put c q))
        → Takes q (c ∷ cs) (cons_intr (c ∷ cs) q)
    added z room t =
        let (queued, length) = Takes-put c cs q (cons_intr cs (put c q)) r room t in
        subst (Takes q (c ∷ cs)) (sym (puts z))
          (record { ring = t.ring; queued = rw z queued; length = rw z length })

-- the next character, or 0, and what is left
abbrev pub head_or_zero : List ℕ → ℕ
head_or_zero [] = 0
head_or_zero (x ∷ xs) = x

abbrev pub rest : List ℕ → List ℕ
rest [] = []
rest (x ∷ xs) = xs

take_one :
    (q : Cons)
    → IsRing q
    → q.rpos ≢ q.wpos
    → waiting q ≡ q.buf q.rpos ∷ waiting (record q { rpos = next_pos q.rpos })
take_one q r n =
    let left : size (record q { rpos = next_pos q.rpos }) + 1 ≡ size q = one_less in
    let first : q.rpos % consbufsize ≡ q.rpos = omega (arith, r.reads) in
    let next : (q.rpos + 1) % consbufsize ≡ next_pos q.rpos % consbufsize = step in
    let longer : size q ≡ suc (size (record q { rpos = next_pos q.rpos })) = omega (arith, left) in
    ap (window q.buf q.rpos) longer
    ∙ ap₂ ◌∷◌ (ap q.buf first) (
        window-shift q.buf (q.rpos + 1) (next_pos q.rpos)
          (size (record q { rpos = next_pos q.rpos })) next)
  where
    one_less : size (record q { rpos = next_pos q.rpos }) + 1 ≡ size q
    one_less = elim (Bool-cases (q.rpos + 1 == consbufsize)) [
      | inl t ↦ let e : q.rpos + 1 ≡ 512 = ground arith in rw t (omega (arith, e, n, r.writes))
      | inr t ↦
          let e : q.rpos + 1 ≢ 512 = ground arith in rw t (omega (arith, e, n, r.reads, r.writes))
    ]

    step : (q.rpos + 1) % consbufsize ≡ next_pos q.rpos % consbufsize
    step = elim (Bool-cases (q.rpos + 1 == consbufsize)) [
      | inl t ↦ let e : q.rpos + 1 ≡ 512 = ground arith in rw t (omega (arith, e))
      | inr t ↦ rw t refl
    ]

-- What `cons_getc` answers.
pub record Reads (serial keyboard : List ℕ) (q : Cons) : Type 0 where
  pub ring : IsRing (cons_getc serial keyboard q).1
  pub answer :
      (cons_getc serial keyboard q).0 ≡ head_or_zero (waiting q ++ kept serial ++ kept keyboard)
  pub left :
      waiting (cons_getc serial keyboard q).1 ≡ rest (waiting q ++ kept serial ++ kept keyboard)

-- With room in the ring for what the devices gave, the ring is a queue: `cons_getc` answers the
-- oldest character and takes it out, or answers 0 when none waits, and what the serial port and
-- the keyboard gave comes behind what waited, in order, without zeros.
pub cons_getc-Reads :
    (serial keyboard : List ℕ) (q : Cons)
    → IsRing q
    → size q + how_many serial + how_many keyboard ≤ 511
    → Reads serial keyboard q
cons_getc-Reads serial keyboard q r h = elim (Bool-cases (full.rpos == full.wpos)) [
  | inl z ↦
      let none_left : waiting full ≡ [] = empty (ground arith) in
      let nothing : waiting q ++ kept serial ++ kept keyboard ≡ [] = sym all ∙ none_left in
      let e = nothing_left z in
      record {
        ring = subst (λ x. IsRing x.1) (sym e) t.ring;
        answer = ap (λ x. x.0) e ∙ ap head_or_zero (sym nothing);
        left = ap (λ x. waiting x.1) e ∙ none_left ∙ ap rest (sym nothing);
      }
  | inr z ↦
      let one = take_one full t.ring (ground arith) in
      let e = taken z in
      let there : waiting q ++ kept serial ++ kept keyboard
          ≡ full.buf full.rpos ∷ waiting (record full { rpos = next_pos full.rpos }) =
        sym all ∙ one in
      record {
        ring =
            subst (λ x. IsRing x.1) (sym e)
              (record { reads = ground (arith, t.ring.reads); writes = t.ring.writes });
        answer = ap (λ x. x.0) e ∙ ap head_or_zero (sym there);
        left = ap (λ x. waiting x.1) e ∙ ap rest (sym there);
      }
]
  where
    after_serial : Takes q serial (cons_intr serial q)
    after_serial = cons_intr-Takes serial q r (omega (arith, h))

    full : Cons
    full = cons_intr keyboard (cons_intr serial q)

    t : Takes (cons_intr serial q) keyboard (cons_intr keyboard (cons_intr serial q))
    t =
        cons_intr-Takes keyboard (cons_intr serial q) after_serial.ring
          (omega (arith, after_serial.length, h))

    all : waiting full ≡ waiting q ++ kept serial ++ kept keyboard
    all = t.queued ∙ ap (λ xs. xs ++ kept keyboard) after_serial.queued

    empty : full.rpos ≡ full.wpos → waiting full ≡ []
    empty e =
        let z : size full ≡ 0 = omega (arith, e, t.ring.reads) in ap (window full.buf full.rpos) z

    nothing_left : (full.rpos == full.wpos) ≡ true → cons_getc serial keyboard q ≡ (0, full)
    nothing_left z = unfold cons_getc in rw z refl

    taken :
        (full.rpos == full.wpos) ≡ false
        → cons_getc serial keyboard q
          ≡ (full.buf full.rpos, record full { rpos = next_pos full.rpos })
    taken z = unfold cons_getc in rw z refl
