-- ===== src/Memory/Tables/Check.antt =====
-- What `user_mem_check` accepts.
use tps_sistemas_operativos.Prelude.{
  ℕ, zero, suc, ◌+◌, ◌-◌, ◌*◌, ◌/◌, ◌%◌, ◌^◌, ◌≤◌, ◌<◌, ◌≡◌, ◌≢◌, refl, sym, ap, ap₂, ◌∙◌, Bool,
  true, false, some, List, ◌==◌, ltb, arith, Bool-cases, inl, inr,
}
use tps_sistemas_operativos.Memory.{Memory, utop, word_mod}
use tps_sistemas_operativos.Memory.Tables.{
  allows, page_allows, check_loop, round_up, round_down, user_mem_check,
}
use tps_sistemas_operativos.Memory.Tables.Permissions.{
  Grants, allows-Grants, Grants-allows, allows-zero,
}
use tps_sistemas_operativos.Memory.Tables.Space.{user_pages, entry, IsSpace}
use tps_sistemas_operativos.Memory.Tables.Space.Remove.{entry_in-none, entry_in-some}

-- A user program with this directory may access this address: it lies below `UTOP`, and the entry of
-- its page is present and has every bit of `perm`.
abbrev pub MayAccess : Memory → ℕ → ℕ → ℕ → Type 0
MayAccess m pgdir perm a = (a < utop) × Grants perm (entry m pgdir (a / 4096))

module _ {m : Memory} {pgdir : ℕ} {xs : List ℕ} {pins : ℕ → ℕ} (s : IsSpace m pgdir xs pins)
    (perm : ℕ) where
  page_allows-entry :
      (va : ℕ)
      → va < utop
      → page_allows pgdir va perm m ≡ some (allows perm (entry m pgdir (va / 4096)))
  page_allows-entry va user = elim (Bool-cases (m.words pgdir (va / 4096 / 1024) == 0)) [
    | inl e ↦
        let z : m.words pgdir (va / 4096 / 1024) ≡ 0 = ground arith in
        unfold page_allows in
        rw (entry_in-none s va user z) (rw e (ap some (sym (allows-zero perm))))
    | inr e ↦
        let z : m.words pgdir (va / 4096 / 1024) ≢ 0 = ground arith in
        unfold page_allows in rw (entry_in-some s va user z) (rw e refl)
  ]

  -- the loop over `n` pages from the page `k` on
  record Loops (n k : ℕ) : Type 0 where
    ok : Bool
    loops : check_loop n pgdir (k * 4096) perm m ≡ some ok
    sound : ok ≡ true → (j : ℕ) → k ≤ j → j < k + n → allows perm (entry m pgdir j) ≡ true
    complete : ((j : ℕ) → k ≤ j → j < k + n → allows perm (entry m pgdir j) ≡ true) → ok ≡ true

  page_allows-page :
      (k : ℕ)
      → k < user_pages
      → page_allows pgdir (k * 4096) perm m ≡ some (allows perm (entry m pgdir k))
  page_allows-page k h =
      page_allows-entry (k * 4096) (omega arith)
      ∙ ap (λ x. some (allows perm (entry m pgdir x))) (omega arith)

  Loops-allowed :
      (n k : ℕ)
      → k < user_pages
      → allows perm (entry m pgdir k) ≡ true
      → Loops n (k + 1)
      → Loops (suc n) k
  Loops-allowed n k h t rest = record {
    ok = rest.ok;
    loops =
        unfold check_loop in
        rw (page_allows-page k h) (rw t (ap (λ a. check_loop n pgdir a perm m) next ∙ rest.loops));
    sound = λ e j l g. elim (Bool-cases (j == k)) [
      | inl q ↦ let p : j ≡ k = ground arith in ap (λ x. allows perm (entry m pgdir x)) p ∙ t
      | inr q ↦ rest.sound e j (ground (arith, l)) (omega (arith, g))
    ];
    complete = λ a. rest.complete (λ j l g. a j (omega (arith, l)) (omega (arith, g)));
  }
    where
      next : k * 4096 + 4096 ≡ (k + 1) * 4096
      next = omega arith

  Loops-refused :
      (n k : ℕ) → k < user_pages → allows perm (entry m pgdir k) ≡ false → Loops (suc n) k
  Loops-refused n k h t = record {
    ok = false;
    loops = unfold check_loop in rw (page_allows-page k h) (rw t refl);
    sound = λ e. absurd (ground arith);
    complete = λ a. sym t ∙ a k (omega arith) (omega arith);
  }

  check_loop-Loops : (n k : ℕ) → k + n ≤ user_pages → Loops n k
  check_loop-Loops zero k h = record {
    ok = true;
    loops = unfold check_loop in refl;
    sound = λ e j l g. absurd (omega (arith, l, g));
    complete = λ a. refl;
  }
  check_loop-Loops (suc n) k h = elim (Bool-cases (allows perm (entry m pgdir k))) [
    | inl t ↦ Loops-allowed n k (omega arith) t (check_loop-Loops n (k + 1) (omega arith))
    | inr t ↦ Loops-refused n k (omega arith) t
  ]

  -- The answer of `user_mem_check` and what it says of the addresses of the range.
  pub record Checks (va len : ℕ) : Type 0 where
    pub ok : Bool
    pub checks : user_mem_check pgdir va len perm m ≡ some ok
    pub sound : ok ≡ true → (a : ℕ) → va ≤ a → a < va + len → MayAccess m pgdir perm a
    pub complete : ((a : ℕ) → va ≤ a → a < va + len → MayAccess m pgdir perm a) → ok ≡ true

  abbrev high : ℕ → ℕ → ℕ
  high va len = round_up ((va + len) % word_mod)

  module _ (va len : ℕ) (some_bytes : 0 < len) (no_wrap : va + len + 4095 < 2 ^ 32) where
    high_value : high va len ≡ (va + len + 4095) / 4096 * 4096
    high_value = omega arith

    refused : (a : ℕ) → utop ≤ a → ¬ MayAccess m pgdir perm a
    refused a h g = absurd (omega (arith, h, g.0))

    Checks-above : utop < high va len → Checks va len
    Checks-above h = record {
      ok = false;
      checks =
          unfold user_mem_check in
          let t : ltb utop (high va len) ≡ true = ground arith in rw t refl;
      sound = λ e. absurd (ground arith);
      complete = λ a. elim (Bool-cases (ltb va utop)) [
        | inl t ↦
            absurd
              (refused utop (omega arith) (a utop (ground arith) (omega (arith, h, high_value))))
        | inr t ↦
            absurd (refused va (ground arith) (a va (omega arith) (omega (arith, some_bytes))))
      ];
    }

    abbrev pages : ℕ
    pages = (va + len + 4095) / 4096 - va / 4096

    pages_below : high va len ≤ utop → va / 4096 + pages ≤ user_pages
    pages_below h = omega (arith, h, high_value)

    loop_pages : (high va len - round_down va) / 4096 ≡ pages
    loop_pages = omega (arith, high_value)

    loop_first : round_down va ≡ va / 4096 * 4096
    loop_first = omega arith

    Checks-below : high va len ≤ utop → Loops pages (va / 4096) → Checks va len
    Checks-below h loop = record {
      ok = loop.ok;
      checks =
          unfold user_mem_check in
          let t : ltb utop (high va len) ≡ false = ground arith in
          rw t
            (ap₂ (λ n first. check_loop n pgdir first perm m) loop_pages loop_first ∙ loop.loops);
      sound = λ e a l g. (
        in_user a g,
        allows-Grants perm (entry m pgdir (a / 4096))
            (loop.sound e (a / 4096) (omega (arith, l)) (omega (arith, l, g))),
      );
      complete = λ c. loop.complete (λ j l g. elim (Bool-cases (j == va / 4096)) [
        | inl t ↦
            let q : va / 4096 ≡ j = ground arith in
            allowed va j q (c va (omega arith) (omega (arith, some_bytes)))
        | inr t ↦
            let n : j ≢ va / 4096 = ground arith in
            allowed (j * 4096) j (omega arith)
              (c (j * 4096) (omega (arith, n, l)) (omega (arith, g)))
      ]);
    }
      where
        in_user : (a : ℕ) → a < va + len → a < utop
        in_user a g = omega (arith, g, h, high_value)

        allowed :
            (a j : ℕ)
            → a / 4096 ≡ j
            → MayAccess m pgdir perm a
            → allows perm (entry m pgdir j) ≡ true
        allowed a j q e =
            ap (λ x. allows perm (entry m pgdir x)) (sym q)
            ∙ Grants-allows perm (entry m pgdir (a / 4096)) e.1

-- For a range of at least one byte that does not reach the last page of the 32-bit addresses,
-- `user_mem_check` neither panics nor errs: it accepts exactly when every address of the range is
-- below `UTOP` and on a page whose entry has the bit P and every bit of the permissions asked for.
pub user_mem_check-Checks :
    {m : Memory} {pgdir : ℕ} {xs : List ℕ} {pins : ℕ → ℕ} (s : IsSpace m pgdir xs pins)
    (perm va len : ℕ)
    → 0 < len
    → va + len + 4095 < 2 ^ 32
    → Checks s perm va len
user_mem_check-Checks s perm va len l n = elim (Bool-cases (ltb utop (high s perm va len))) [
  | inl t ↦ Checks-above s perm va len l n (ground arith)
  | inr t ↦
      let h : high s perm va len ≤ utop = ground arith in
      Checks-below s perm va len l n h (
        check_loop-Loops s perm (pages s perm va len l n) (va / 4096)
          (pages_below s perm va len l n h))
]

-- A range whose end passes 2 ^ 32 by at most `UTOP`, and comes back at or below the start of the
-- page where it starts, is accepted, whatever is mapped there: the rounded end lies at or below the
-- start and no page is asked.
pub user_mem_check-wrapped :
    (m : Memory) (pgdir perm va len : ℕ)
    → va < 2 ^ 32
    → 2 ^ 32 ≤ va + len
    → va + len ≤ 2 ^ 32 + round_down va
    → va + len ≤ 2 ^ 32 + utop
    → user_mem_check pgdir va len perm m ≡ some true
user_mem_check-wrapped m pgdir perm va len small wrap below user =
    unfold user_mem_check in
    let t : ltb utop (round_up ((va + len) % word_mod)) ≡ false = not_above in
    rw t (rw none_left (unfold check_loop in refl))
  where
    end : round_up ((va + len) % word_mod) ≤ round_down va
    end = omega arith

    none_left : (round_up ((va + len) % word_mod) - round_down va) / 4096 ≡ 0
    none_left = omega (arith, end)

    not_above : ltb utop (round_up ((va + len) % word_mod)) ≡ false
    not_above = let b : round_up ((va + len) % word_mod) ≤ utop = omega arith in ground arith
