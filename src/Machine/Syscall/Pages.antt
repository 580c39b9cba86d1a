-- ===== src/Machine/Syscall/Pages.antt =====
-- What `sys_page_alloc` does to the address space of an environment.
use Prim.Native.Nat.{bit_or}
use tps_sistemas_operativos.Prelude.{
  ℕ, ◌/◌, ◌%◌, ◌^◌, ◌<◌, ◌≡◌, ◌≢◌, refl, sym, ap, ◌∙◌, true, false, Option, none, some, List, [],
  ◌∷◌, ◌==◌, bind-some, update, arith, Bool-cases, inl, inr, ◌⊎◌,
}
use tps_sistemas_operativos.Memory.{Memory, pgsize, utop, pte_p, pte_u}
use tps_sistemas_operativos.Memory.Pages.FreeList.{allocated, page_alloc-first}
use tps_sistemas_operativos.Memory.Tables.{page_lookup}
use tps_sistemas_operativos.Memory.Tables.Space.{user_pages, entry, hit, IsSpace}
use tps_sistemas_operativos.Memory.Tables.Space.Counts.{hit-le-count, hit_self}
use tps_sistemas_operativos.Memory.Tables.Space.Remove.{place_of}
use tps_sistemas_operativos.Memory.Tables.Space.Insert.{
  pte, pte-pgnum, pte-ne-zero, Inserts, page_insert-Inserts,
}
use tps_sistemas_operativos.Memory.Tables.Space.Fresh.{
  directory_kept, entry-allocated, IsSpace-allocated, allocated-IsMappable,
}
use tps_sistemas_operativos.Machine.{Machine, error, e_inval}
use tps_sistemas_operativos.Machine.Resolve.{Names, envid2env-Resolves}
use tps_sistemas_operativos.Machine.Syscall.{
  Answer, set_memory, with_env, check_perm, insert_page, env_page_alloc, not_user_page,
  sys_page_alloc, has_other_bits,
}

-- the permissions that `sys_page_alloc` gives
abbrev pub granted : ℕ → ℕ
granted perm = bit_or (bit_or perm pte_u) pte_p

-- What `sys_page_alloc` leaves when the free page `p` was mapped.
pub record Gives (m : Machine) (envid pgdir : ℕ) (pins : ℕ → ℕ) (p va perm : ℕ) : Type 0 where
  pub memory : Memory
  pub free_after : List ℕ
  pub pins_after : ℕ → ℕ
  pub gives : sys_page_alloc envid va perm m ≡ some (Answer.returns 0 (set_memory m memory))
  pub space : IsSpace memory pgdir free_after pins_after
  pub found : page_lookup pgdir va memory ≡ some (some (p, place_of memory pgdir va))
  pub entries :
      (j : ℕ)
      → j < user_pages
      → entry memory pgdir j ≡ update (entry m.memory pgdir) (va / 4096) (pte p (granted perm)) j
  pub counted_once : memory.pp_ref p ≡ 1

-- permissions that `check_perm` accepts are bits below the address of an entry
accepted-small : (perm : ℕ) → check_perm perm none ≡ 0 → perm < 4096
unfolding check_perm
accepted-small perm e = elim (Bool-cases (has_other_bits perm)) [
  | inl t ↦ let v : check_perm perm none ≡ error e_inval = rw t refl in absurd (omega (arith, v, e))
  | inr t ↦ ground arith
]

module _ (m : Machine) (e pgdir p : ℕ) (ps : List ℕ) {pins : ℕ → ℕ} (va full : ℕ)
    (dir : (m.kernel.envs e).env_pgdir ≡ some pgdir) (s : IsSpace m.memory pgdir (p ∷ ps) pins)
    (user : va < utop) (ok : check_perm full none ≡ 0)
    (room : (m.memory.words pgdir (va / 4096 / 1024) ≢ 0) ⊎ (ps ≢ [])) where
  inserted : Inserts (allocated m.memory p) pgdir ps pins p va full
  inserted =
      page_insert-Inserts ps (IsSpace-allocated s) p va full user (accepted-small full ok)
        (allocated-IsMappable s) (still_room room)
    where
      still_room :
          (m.memory.words pgdir (va / 4096 / 1024) ≢ 0) ⊎ (ps ≢ [])
          → ((allocated m.memory p).words pgdir (va / 4096 / 1024) ≢ 0) ⊎ (ps ≢ [])
      still_room (inl n) =
          inl (λ z. n (ap (λ f. f (va / 4096 / 1024)) (sym (directory_kept s)) ∙ z))
      still_room (inr n) = inr n

  insert_page-inserted :
      insert_page e p va full (set_memory m (allocated m.memory p))
      ≡ some (0, set_memory m inserted.after)
  insert_page-inserted = unfold insert_page in bind-some _ dir ∙ bind-some _ inserted.inserts

  env_page_alloc-inserted : env_page_alloc e va full m ≡ some (0, set_memory m inserted.after)
  env_page_alloc-inserted =
      unfold env_page_alloc in
      rw ok (bind-some _ (page_alloc-first m.memory p ps s.free) ∙ insert_page-inserted)

  inserted-entries :
      (j : ℕ)
      → j < user_pages
      → entry inserted.after pgdir j ≡ update (entry m.memory pgdir) (va / 4096) (pte p full) j
  inserted-entries j l = inserted.entries j l ∙ (elim (Bool-cases (j == va / 4096)) [
    | inl t ↦ rw t refl
    | inr t ↦ rw t (entry-allocated s j l)
  ])

  inserted-counted : inserted.after.pp_ref p ≡ 1
  inserted-counted =
      let small : p < 2 ^ 20 = omega (arith, s.small, s.free.all_free.0) in
      let word = pte p full in
      let one : hit word p ≡ 1 =
        ap (hit word) (sym (pte-pgnum p full small (accepted-small full ok)))
        ∙ hit_self word (pte-ne-zero p full) in
      let old =
        hit-le-count (entry (allocated m.memory p) pgdir) p (va / 4096) user_pages
          (omega (arith, user)) in
      omega (
        arith,
        one,
        old,
        (IsSpace-allocated s).counted p,
        s.free.all_free.1,
        inserted.refs p s.free.distinct.0,
      )

-- For an environment that `envid` names with permission, an aligned address below `UTOP`,
-- permissions that `check_perm` accepts, a free page, and a table for the address or a second free
-- page, `sys_page_alloc` returns 0: the first free page is mapped at the address with the
-- permissions asked for and has one reference, the rest of the address space is as before, and it
-- is in order.
pub sys_page_alloc-Gives :
    (m : Machine) (c e envid pgdir p : ℕ) (ps : List ℕ) {pins : ℕ → ℕ} (va perm : ℕ)
    → m.kernel.curenv ≡ some c
    → Names m.kernel c envid true e
    → (m.kernel.envs e).env_pgdir ≡ some pgdir
    → IsSpace m.memory pgdir (p ∷ ps) pins
    → va < utop
    → va % pgsize ≡ 0
    → check_perm (granted perm) none ≡ 0
    → (m.memory.words pgdir (va / 4096 / 1024) ≢ 0) ⊎ (ps ≢ [])
    → Gives m envid pgdir pins p va perm
sys_page_alloc-Gives m c e envid pgdir p ps va perm cur names dir s user aligned ok room =
    let i = inserted m e pgdir p ps va (granted perm) dir s user ok room in
    record {
      memory = i.after;
      free_after = i.free_after;
      pins_after = i.pins_after;
      gives =
          unfold sys_page_alloc in
          rw fits (
            named _
            ∙ bind-some _
                (env_page_alloc-inserted m e pgdir p ps va (granted perm) dir s user ok room));
      space = i.space_after;
      found = i.found;
      entries = inserted-entries m e pgdir p ps va (granted perm) dir s user ok room;
      counted_once = inserted-counted m e pgdir p ps va (granted perm) dir s user ok room;
    }
  where
    fits : not_user_page va ≡ false
    fits = ground arith

    named : (f : ℕ → Option Answer) → with_env envid true m f ≡ f e
    named f =
        let r = envid2env-Resolves m.kernel c envid true cur in
        unfold with_env in bind-some _ (r.answers ∙ ap some (r.complete e names))
