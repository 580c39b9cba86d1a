-- ===== src/Fisopfs/Disk/Reload.antt =====
-- What is loaded after the file system was saved.
use mathlib.Core.List.{map, append-nil}
use tps_sistemas_operativos.Prelude.{
  ℕ, zero, suc, ◌+◌, ◌-◌, ◌≤◌, ◌<◌, ◌≡◌, refl, ap, ◌∙◌, true, false, some, List, [], ◌∷◌, ◌++◌,
  ◌==◌, leb, if◌then◌else◌, length, take, replicate, update, arith, Bool-cases, inl, inr, get_elem?,
  length-take, eq_of_some, subst,
}
use tps_sistemas_operativos.Fisopfs.{Inode, Superblock, Host}
use tps_sistemas_operativos.Fisopfs.Buffer.{read_at}
use tps_sistemas_operativos.Fisopfs.Disk.{
  Saved, count_active, save_loop, serialize, filled, load_loop, empty, deserialize,
}

-- the active inodes from slot `i` on
abbrev pub active : ℕ → ℕ → Superblock → List Inode
active zero i sb = []
active (suc n) i sb =
    let rest = active n (i + 1) sb in if sb.inode_bitmap i == 1 then sb.inodes i ∷ rest else rest

-- an inode with as many bytes as its size says
abbrev pub cut : Inode → Inode
cut x = record x { content = take x.size x.content }

abbrev packed : Inode → Inode × List ℕ
packed x = (record x { content = [] }, take x.size x.content)

abbrev AllBacked : List Inode → Type 0
AllBacked [] = Unit
AllBacked (x ∷ xs) = (x.size ≤ length x.content) × AllBacked xs

save_loop-active :
    (n i : ℕ) (sb : Superblock)
    → ((j : ℕ)
        → (sb.inode_bitmap j == 1) ≡ true
        → (sb.inodes j).size ≤ length (sb.inodes j).content)
    → save_loop n i sb ≡ some (map packed (active n i sb))
unfolding save_loop read_at
save_loop-active zero i sb h = refl
save_loop-active (suc n) i sb h = elim (Bool-cases (sb.inode_bitmap i == 1)) [
  | inr e ↦ rw (e, save_loop) (save_loop-active n (i + 1) sb h)
  | inl e ↦
      let fits : leb (0 + (sb.inodes i).size) (length (sb.inodes i).content) ≡ true =
        ground (arith, h i e) in
      rw (e, save_loop) (rw fits (rw (save_loop-active n (i + 1) sb h) refl))
]

count_active-active : (n i : ℕ) (sb : Superblock) → count_active n i sb ≡ length (active n i sb)
unfolding count_active
count_active-active zero i sb = refl
count_active-active (suc n) i sb = elim (Bool-cases (sb.inode_bitmap i == 1)) [
  | inr e ↦ rw e (count_active-active n (i + 1) sb)
  | inl e ↦ rw e (ap suc (count_active-active n (i + 1) sb))
]

AllBacked-active :
    (n i : ℕ) (sb : Superblock)
    → ((j : ℕ)
        → (sb.inode_bitmap j == 1) ≡ true
        → (sb.inodes j).size ≤ length (sb.inodes j).content)
    → AllBacked (active n i sb)
AllBacked-active zero i sb h = tt
AllBacked-active (suc n) i sb h = elim (Bool-cases (sb.inode_bitmap i == 1)) [
  | inr e ↦ rw e (AllBacked-active n (i + 1) sb h)
  | inl e ↦ rw e (h i e, AllBacked-active n (i + 1) sb h)
]

-- the inodes one after the other from slot `i` on
abbrev placed : ℕ → List Inode → Superblock → Superblock
placed i [] sb = sb
placed i (x ∷ xs) sb =
    placed (i + 1) xs
      (record sb { inodes = update sb.inodes i (cut x); inode_bitmap = update sb.inode_bitmap i 1 })

take-all : (n : ℕ) (xs : List ℕ) → length xs ≤ n → take n xs ≡ xs
take-all zero [] h = refl
take-all zero (x ∷ xs) h = absurd (omega arith)
take-all (suc n) [] h = refl
take-all (suc n) (x ∷ xs) h = ap (λ l. x ∷ l) (take-all n xs (omega arith))

filled-take :
    (size : ℕ) (content : List ℕ)
    → size ≤ length content
    → filled size (take size content) ≡ take size content
filled-take size content h =
    trimmed (size - length (take size content)) (omega (arith, length-take size content))
  where
    again : take size (take size content) ≡ take size content
    again = take-all size (take size content) (omega (arith, length-take size content))

    trimmed : (m : ℕ) → m ≡ 0 → take size (take size content) ++ replicate m 0 ≡ take size content
    trimmed zero e = append-nil (take size (take size content)) ∙ again
    trimmed (suc m) e = absurd (omega arith)

load_loop-placed :
    (host : Host) (i : ℕ) (xs : List Inode) (sb : Superblock)
    → ((j : ℕ) → host.alloc j ≡ true)
    → AllBacked xs
    → load_loop host (length xs) i (map packed xs) sb ≡ some (placed i xs sb)
unfolding load_loop
load_loop-placed host i [] sb a h = refl
load_loop-placed host i (x ∷ xs) sb a h = rw (a (i + 2)) (
    rw (filled-take x.size x.content h.0) (
      load_loop-placed host (i + 1) xs
        (record sb {
          inodes = update sb.inodes i (cut x);
          inode_bitmap = update sb.inode_bitmap i 1;
        })
        a h.1))

placed-below :
    (i : ℕ) (xs : List Inode) (sb : Superblock) (j : ℕ)
    → j < i
    → ((placed i xs sb).inodes j ≡ sb.inodes j)
      × ((placed i xs sb).inode_bitmap j ≡ sb.inode_bitmap j)
placed-below i [] sb j h = (refl, refl)
placed-below i (x ∷ xs) sb j h =
    let (e, f) =
      placed-below (i + 1) xs
        (record sb {
          inodes = update sb.inodes i (cut x);
          inode_bitmap = update sb.inode_bitmap i 1;
        })
        j (omega arith) in
    let ne : (j == i) ≡ false = ground arith in (e ∙ rw ne refl, f ∙ rw ne refl)

placed_at :
    (i : ℕ) (xs : List Inode) (sb : Superblock) (k : ℕ) (x : Inode)
    → get_elem? xs k ≡ some x
    → ((placed i xs sb).inodes (i + k) ≡ cut x) × ((placed i xs sb).inode_bitmap (i + k) ≡ 1)
placed_at i [] sb k x e = cc
placed_at i (y ∷ ys) sb zero x e =
    let (p, q) =
      placed-below (i + 1) ys
        (record sb {
          inodes = update sb.inodes i (cut y);
          inode_bitmap = update sb.inode_bitmap i 1;
        })
        (i + 0) (omega arith) in
    let same : (i + 0 == i) ≡ true = ground arith in
    (p ∙ rw same (ap cut (eq_of_some e)), q ∙ rw same refl)
placed_at i (y ∷ ys) sb (suc k) x e =
    let next = record sb {
      inodes = update sb.inodes i (cut y);
      inode_bitmap = update sb.inode_bitmap i 1;
    } in
    let same : i + 1 + k ≡ i + suc k = omega arith in
    subst
      (λ m.
        ((placed (i + 1) ys next).inodes m ≡ cut x) × ((placed (i + 1) ys next).inode_bitmap m ≡ 1))
      same (placed_at (i + 1) ys next k x e)

placed-amount :
    (i : ℕ) (xs : List Inode) (sb : Superblock) → (placed i xs sb).inode_amount ≡ sb.inode_amount
placed-amount i [] sb = refl
placed-amount i (x ∷ xs) sb =
    placed-amount (i + 1) xs
      (record sb { inodes = update sb.inodes i (cut x); inode_bitmap = update sb.inode_bitmap i 1 })

-- Saving succeeds, and what is loaded then has the active inodes, cut to their sizes, in its first
-- slots, all of them active, and no other slots.
pub record Reloads (host : Host) (sb : Superblock) : Type 0 where
  pub saved : Saved
  pub loaded : Superblock
  pub saves : serialize sb ≡ some saved
  pub loads : deserialize host saved ≡ some loaded
  pub amount : loaded.inode_amount ≡ length (active sb.inode_amount 0 sb)
  pub slots :
      (k : ℕ) (x : Inode)
      → get_elem? (active sb.inode_amount 0 sb) k ≡ some x
      → (loaded.inodes k ≡ cut x) × (loaded.inode_bitmap k ≡ 1)

-- If every active inode has as many bytes allocated as its size says and no allocation fails, what
-- `serialize` saves `deserialize` loads: the active inodes in order in the first slots, with all
-- their fields and the bytes of their contents up to their sizes, and no other slots.
pub serialize-Reloads :
    (host : Host) (sb : Superblock)
    → ((j : ℕ) → host.alloc j ≡ true)
    → ((j : ℕ)
        → (sb.inode_bitmap j == 1) ≡ true
        → (sb.inodes j).size ≤ length (sb.inodes j).content)
    → Reloads host sb
serialize-Reloads host sb a h = record {
  saved = record { amount = length xs; entries = map packed xs };
  loaded = placed 0 xs fresh;
  saves =
      unfold serialize in
      rw (save_loop-active sb.inode_amount 0 sb h)
        (rw (count_active-active sb.inode_amount 0 sb) refl);
  loads =
      unfold deserialize in
      rw (a 0) (
        rw (a 1)
          (rw (load_loop-placed host 0 xs fresh a (AllBacked-active sb.inode_amount 0 sb h)) refl));
  amount = placed-amount 0 xs fresh;
  slots = λ k x e.
      let same : 0 + k ≡ k = omega arith in
      subst (λ m. ((placed 0 xs fresh).inodes m ≡ cut x) × ((placed 0 xs fresh).inode_bitmap m ≡ 1))
        same (placed_at 0 xs fresh k x e);
}
  where
    xs : List Inode
    xs = active sb.inode_amount 0 sb

    fresh : Superblock
    fresh = record empty { inode_amount = length xs }
