-- ===== src/Fisopfs/Ops/Contents.antt =====
-- Writing a file, and reading back what was written.
pub mod Reads
pub mod Truncate
use mathlib.Core.List.{append-nil}
use native.Mathlib.Nat.{mod-eq_of_lt}
use tps_sistemas_operativos.Prelude.{
  ℕ, zero, suc, ◌+◌, ◌-◌, ◌%◌, ◌^◌, ◌≤◌, ◌<◌, ◌≡◌, ◌≢◌, refl, sym, ap, ap₂, ◌∙◌, Bool, true, false,
  Option, none, some, List, [], ◌∷◌, ◌++◌, ◌==◌, ltb, leb, if◌then◌else◌, ◌>>=◌, arith, length,
  take, drop, replicate, length-append, length-take, length-drop, length-replicate, subst, update,
  ==-refl, Bool-cases, ◌⊎◌, inl, inr, not, ◌&&◌,
}
use tps_sistemas_operativos.Fisopfs.{
  InodeType, Inode, Superblock, set_inode, Reply, ok, err, Host, initial_content_length,
}
use tps_sistemas_operativos.Fisopfs.Buffer.{str_eq, strlen, write_at, read_at, find_from}
use tps_sistemas_operativos.Fisopfs.Buffer.Laws.{take-append, drop-append, drop-past, write_at-none}
use tps_sistemas_operativos.Fisopfs.File.{recalloc, search_inode, holds}
use tps_sistemas_operativos.Fisopfs.Ops.{size_mod, read, write, room_for, truncate, resize, int_mod}

drop-same : (n : ℕ) (xs ys : List ℕ) → length xs ≡ n → drop n (xs ++ ys) ≡ ys
drop-same n xs ys e = subst (λ m. drop m (xs ++ ys) ≡ ys) e (drop-append xs ys)

pub spliced : List ℕ → ℕ → List ℕ → List ℕ
spliced block offset bytes = take offset block ++ (bytes ++ drop (offset + length bytes) block)

pub length-spliced :
    (block bytes : List ℕ) (offset : ℕ)
    → offset + length bytes ≤ length block
    → length (spliced block offset bytes) ≡ length block
unfolding spliced
length-spliced block bytes offset h = omega (
  arith,
  length-append (take offset block) (bytes ++ drop (offset + length bytes) block),
  length-append bytes (drop (offset + length bytes) block),
  length-take offset block,
  length-drop (offset + length bytes) block,
)

read_at-spliced :
    (block bytes : List ℕ) (offset : ℕ)
    → offset + length bytes ≤ length block
    → read_at (spliced block offset bytes) offset (length bytes) ≡ some bytes
unfolding read_at
read_at-spliced block bytes offset h = rw fits (ap some taken)
  where
    fits : leb (offset + length bytes) (length (spliced block offset bytes)) ≡ true
    fits = ground (arith, length-spliced block bytes offset h)

    dropped : drop offset (spliced block offset bytes) ≡ bytes ++ drop (offset + length bytes) block
    dropped =
        unfold spliced in
        drop-same offset (take offset block) (bytes ++ drop (offset + length bytes) block)
          (omega (arith, length-take offset block))

    taken : take (length bytes) (drop offset (spliced block offset bytes)) ≡ bytes
    taken =
        ap (take (length bytes)) dropped ∙ take-append bytes (drop (offset + length bytes) block)

pub write_at-spliced :
    (block bytes : List ℕ) (offset : ℕ)
    → offset + length bytes ≤ length block
    → write_at block offset bytes ≡ some (spliced block offset bytes)
write_at-spliced block bytes offset h = unfold write_at in unfold spliced in rw fits refl
  where
    fits : leb (offset + length bytes) (length block) ≡ true
    fits = ground arith

recalloc-some :
    (block : List ℕ) (old new : ℕ)
    → old ≤ length block
    → old ≤ new
    → (block' : List ℕ) × (recalloc block old new ≡ some block') × (length block' ≡ new)
unfolding recalloc
recalloc-some block old new h k = (
  spliced (replicate new 0) 0 (take old block),
  rw copied (write_at-spliced (replicate new 0) (take old block) 0 room),
  length-spliced (replicate new 0) (take old block) 0 room ∙ length-replicate {A = ℕ} new 0,
)
  where
    copied : leb old (length block) ≡ true
    copied = ground arith

    room : 0 + length (take old block) ≤ length (replicate {A = ℕ} new 0)
    room = omega (arith, length-take old block, length-replicate {A = ℕ} new 0)

-- A path is found at the same slot when the change of that slot keeps its path.
find_from-same :
    (n i : ℕ) (p q : ℕ → Bool) → ((j : ℕ) → p j ≡ q j) → find_from n i p ≡ find_from n i q
unfolding find_from
find_from-same zero i p q h = refl
find_from-same (suc n) i p q h =
    rw (h i, find_from)
      (elim (q i)
        as (λ b.
          ◌≡◌ {A = Option ℕ} (elim b [ true ↦ some i | false ↦ find_from n (i + 1) p ])
            (elim b [ true ↦ some i | false ↦ find_from n (i + 1) q ])) [
              | true ↦ refl
              | false ↦ find_from-same n (i + 1) p q h
            ])

pub search_inode-set_inode :
    (sb : Superblock) (path : List ℕ) (i : ℕ) (v : Inode)
    → v.path ≡ (sb.inodes i).path
    → search_inode (set_inode sb i v) path ≡ search_inode sb path
unfolding search_inode
search_inode-set_inode sb path i v e =
    find_from-same sb.inode_amount 0 (holds (set_inode sb i v) path) (holds sb path) same
  where
    path-update : (j : ℕ) → (update sb.inodes i v j).path ≡ (sb.inodes j).path
    path-update j = elim (Bool-cases (j == i)) [
      | inl t ↦ let k : i ≡ j = ground arith in rw t (e ∙ ap (λ k. (sb.inodes k).path) k)
      | inr t ↦ rw t refl
    ]

    same : (j : ℕ) → holds (set_inode sb i v) path j ≡ holds sb path j
    same j = ap (λ (l : List ℕ). not (sb.inode_bitmap j == 0) && str_eq l path) (path-update j)

-- the state after `fisopfs_write` put the block there and `end` is the new size
abbrev pub written : Host → Superblock → ℕ → List ℕ → ℕ → Superblock
written host sb i block end =
    set_inode sb i
      (record (sb.inodes i) { content = block; size = end; last_modification = host.time 0 })

-- A file of which `size` bytes are allocated.
pub record IsFile (sb : Superblock) (path : List ℕ) (i : ℕ) : Type 0 where
  pub found : search_inode sb path ≡ some i
  pub typed : (sb.inodes i).type ≡ InodeType.inode_file
  pub sized : (sb.inodes i).size ≤ length (sb.inodes i).content

-- The block that is written to has room for all up to `end`.
room_for-some :
    (host : Host) (file : Inode) (end : ℕ)
    → file.size ≤ length file.content
    → host.alloc 0 ≡ true
    → (block : List ℕ) × (room_for host file end ≡ some block) × (end ≤ length block)
room_for-some host file end h alloc = elim (Bool-cases (ltb file.size end)) [
  | inl e ↦
      grow e (recalloc-some file.content file.size (end + initial_content_length) h (ground arith))
  | inr e ↦ (file.content, rw e refl, ground arith)
]
  where
    grow :
        ltb file.size end ≡ true
        → (block : List ℕ) × (recalloc file.content file.size (end + initial_content_length)
            ≡ some block)
          × (length block ≡ end + initial_content_length)
        → (block : List ℕ) × (room_for host file end ≡ some block) × (end ≤ length block)
    grow e (block, r, l) = (block, rw e (rw alloc r), omega arith)

module _ (host : Host) (sb : Superblock) (path bytes : List ℕ) (i offset : ℕ) (f : IsFile sb path i)
    (small : offset + length bytes < int_mod) where
  unwrapped : (offset + length bytes) % size_mod ≡ offset + length bytes
  unwrapped = mod-eq_of_lt (omega (arith, small))

  int_size : ltb (offset + length bytes) int_mod ≡ true
  int_size = ground (arith, small)

  write-written :
      (block : List ℕ)
      → room_for host (sb.inodes i) (offset + length bytes) ≡ some block
      → offset + length bytes ≤ length block
      → (result : Option (Reply × Superblock))
      → some (
        ok (length bytes),
        written host sb i (spliced block offset bytes) (offset + length bytes),
      )
        ≡ result
      → write host sb path bytes offset ≡ result
  write-written block r h result e =
      unfold write in
      rw (f.found, write)
        (rw (f.typed, write)
          (rw unwrapped (rw r (rw (write_at-spliced block bytes offset h) (rw int_size e)))))

  IsFile-written :
      (block : List ℕ) (end : ℕ) → end ≤ length block → IsFile (written host sb i block end) path i
  IsFile-written block end h = record {
    found =
        search_inode-set_inode sb path i
          (record (sb.inodes i) { content = block; size = end; last_modification = host.time 0 })
          refl
        ∙ f.found;
    typed = rw (==-refl i) f.typed;
    sized = rw (==-refl i) h;
  }

  read-written :
      (sb' : Superblock) (result : Option (Reply × List ℕ × Superblock))
      → IsFile sb' path i
      → (sb'.inodes i).size ≡ offset + length bytes
      → read_at (sb'.inodes i).content offset (length bytes) ≡ some bytes
      → some (
        ok (length bytes),
        bytes,
        set_inode sb' i (record (sb'.inodes i) { last_access = host.time 0 }),
      )
        ≡ result
      → read host sb' path (length bytes) offset ≡ result
  read-written sb' result g end at e =
      unfold read in
      rw (g.found, read) (rw (g.typed, read) (rw unwrapped (rw within (rw enough (rw at e)))))
    where
      within : ltb (sb'.inodes i).size (offset + length bytes) ≡ false
      within = ground (arith, end)

      enough : ltb (length bytes) (length bytes) ≡ false
      enough = ground arith

abbrev pub accessed : Host → Superblock → ℕ → Superblock
accessed host sb i = set_inode sb i (record (sb.inodes i) { last_access = host.time 0 })

-- `fisopfs_write` into a file, and then `fisopfs_read` at the same place.
pub record WriteRead (host : Host) (sb : Superblock) (path bytes : List ℕ) (i offset : ℕ)
    : Type 0 where
  pub block : List ℕ
  pub after_write :
      write host sb path bytes offset
      ≡ some (ok (length bytes), written host sb i block (offset + length bytes))
  pub still_file : IsFile (written host sb i block (offset + length bytes)) path i
  pub after_read :
      read host (written host sb i block (offset + length bytes)) path (length bytes) offset
      ≡ some (
        ok (length bytes),
        bytes,
        accessed host (written host sb i block (offset + length bytes)) i,
      )

-- `fisopfs_write` into a file of which `size` bytes are allocated succeeds whatever the offset, if
-- the allocation does and the new size is an `int`: the file then ends where the write ended, that
-- many bytes are allocated, and `fisopfs_read` at the same place gives the same bytes back and
-- changes nothing but the time of access.
pub write-read :
    (host : Host) (sb : Superblock) (path bytes : List ℕ) (i offset : ℕ)
    → IsFile sb path i
    → host.alloc 0 ≡ true
    → offset + length bytes < int_mod
    → WriteRead host sb path bytes i offset
write-read host sb path bytes i offset f alloc small =
    ends (room_for-some host (sb.inodes i) (offset + length bytes) f.sized alloc)
  where
    ends :
        (block : List ℕ) × (room_for host (sb.inodes i) (offset + length bytes) ≡ some block)
          × (offset + length bytes ≤ length block)
        → WriteRead host sb path bytes i offset
    ends (block, r, l) =
        let new = spliced block offset bytes in
        let still =
          IsFile-written host sb path bytes i offset f small new (offset + length bytes)
            (omega (arith, l, length-spliced block bytes offset l)) in
        record {
          block = new;
          after_write =
              write-written host sb path bytes i offset f small block r l
                (some (ok (length bytes), written host sb i new (offset + length bytes))) refl;
          still_file = still;
          after_read =
              read-written host sb path bytes i offset f small
                (written host sb i new (offset + length bytes))
                (some (
                  ok (length bytes),
                  bytes,
                  accessed host (written host sb i new (offset + length bytes)) i,
                ))
                still (rw (==-refl i) refl) (rw (==-refl i) (read_at-spliced block bytes offset l))
                refl;
        }
