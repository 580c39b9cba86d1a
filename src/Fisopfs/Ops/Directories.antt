-- ===== src/Fisopfs/Ops/Directories.antt =====
-- The operations of fisopfs/fisopfs.c on directories, in terms of the names that they hold.
use mathlib.Core.List.{append_assoc}
use tps_sistemas_operativos.Prelude.{
  ℕ, zero, suc, ◌+◌, ◌≤◌, ◌<◌, ◌≡◌, refl, ap, ◌∙◌, true, false, Option, none, some, List, [], ◌∷◌,
  ◌++◌, ltb, ◌>>=◌, arith, length, drop, replicate, length-append, length-replicate, update,
}
use tps_sistemas_operativos.Fisopfs.{
  max_path, InodeType, Superblock, Reply, ok, err, enotempty, enotdir, eisdir, Host,
}
use tps_sistemas_operativos.Fisopfs.Buffer.{newline, c_str, strlen}
use tps_sistemas_operativos.Fisopfs.Buffer.Laws.{c_str-Split, Split}
use tps_sistemas_operativos.Fisopfs.File.{
  read_line, copy_entries, search_inode, get_parent_path, entry_name, remove_inode,
}
use tps_sistemas_operativos.Fisopfs.File.Dir.{AllClean, render, IsDir, strlen-string}
use tps_sistemas_operativos.Fisopfs.File.Dir.Lines.{
  AllShort, read_line-line, drop-line, without, Copies, copy_entries-Copies,
}
use tps_sistemas_operativos.Fisopfs.Ops.{readdir_loop, dots, readdir, unlink, rmdir}

module _ (content pad : List ℕ) (end : ℕ) where
  loop_ends :
      (fuel offset : ℕ) → ltb offset end ≡ false → readdir_loop fuel content end offset ≡ some []
  loop_ends zero offset e = unfold readdir_loop in rw e refl
  loop_ends (suc fuel) offset e = unfold readdir_loop in rw (e, readdir_loop) refl

  loop_line :
      (fuel offset : ℕ) (n : List ℕ)
      → ltb offset end ≡ true
      → read_line content 1024 offset ≡ some (n, length n + 1)
      → readdir_loop (suc fuel) content end offset
        ≡ (readdir_loop fuel content end (offset + (length n + 1)) >>= λ rest. some (n ∷ rest))
  loop_line fuel offset n e r = unfold readdir_loop in rw (e, readdir_loop) (rw r refl)

  readdir_loop-names :
      (names : List (List ℕ)) (fuel offset : ℕ)
      → AllClean names
      → AllShort 1024 names
      → drop offset content ≡ render names ++ 0 ∷ pad
      → offset + length (render names) ≡ end
      → length (render names) ≤ fuel
      → readdir_loop fuel content end offset ≡ some names
  readdir_loop-names [] fuel offset c s d e f = loop_ends fuel offset (ground arith)
  readdir_loop-names (n ∷ names) zero offset c s d e f =
      absurd (omega (arith, length-append n (newline ∷ render names)))
  readdir_loop-names (n ∷ names) (suc fuel) offset c s d e f =
      let total = length-append n (newline ∷ render names) in
      let ahead : drop offset content ≡ n ++ newline ∷ (render names ++ 0 ∷ pad) =
        d ∙ append_assoc n (newline ∷ render names) (0 ∷ pad) in
      loop_line fuel offset n (ground (arith, total))
        (read_line-line content n (render names ++ 0 ∷ pad) 1024 offset c.0 ahead s.0)
      ∙ ap (λ o. o >>= λ rest. some (n ∷ rest))
          (readdir_loop-names names fuel (offset + (length n + 1)) c.1 s.1
            (drop-line content n (render names ++ 0 ∷ pad) offset ahead) (omega (arith, total))
            (omega (arith, total)))

-- From offset 0, `fisopfs_readdir` fills in the two dots and then the names that the directory holds,
-- in order, if none of them has 1024 bytes or more.
pub readdir-IsDir :
    (sb : Superblock) (path : List ℕ) (i : ℕ) (names : List (List ℕ))
    → search_inode sb path ≡ some i
    → (sb.inodes i).type ≡ InodeType.inode_dir
    → IsDir (sb.inodes i).content (sb.inodes i).size names
    → AllShort 1024 names
    → readdir sb path 0 ≡ some (ok 0, dots ++ names)
readdir-IsDir sb path i names found is_dir d short =
    unfold readdir in
    rw (found, readdir)
      (rw (is_dir, readdir)
        (rw (strlen-string (sb.inodes i).content (render names) d.text) (
          ap (λ o. o >>= λ names. some (ok 0, dots ++ names))
            (listed (c_str-Split (sb.inodes i).content (render names) d.text)))))
  where
    listed :
        Split (sb.inodes i).content (render names)
        → readdir_loop (length (render names)) (sb.inodes i).content (length (render names)) 0
          ≡ some names
    listed (pad, e, nz) =
        readdir_loop-names (sb.inodes i).content pad (length (render names)) names
          (length (render names)) 0 d.clean short e (omega arith) (omega arith)

IsDir-blank : (size : ℕ) → 0 < size → IsDir (replicate size 0) size []
IsDir-blank zero h = absurd (omega arith)
IsDir-blank (suc m) h = record {
  text = unfold c_str in refl;
  sized = length-replicate {A = ℕ} (suc m) 0;
  clean = tt;
}

-- the state after an entry was removed: the slot `i` is free, and the directory `p` has the block
abbrev pub removed : Superblock → ℕ → ℕ → List ℕ → Superblock
removed sb i p block = record sb {
  inodes = update sb.inodes p (record (sb.inodes p) { content = block });
  inode_bitmap = update sb.inode_bitmap i 0;
}

abbrev pub cleared : Superblock → ℕ → Superblock
cleared sb i = record sb { inode_bitmap = update sb.inode_bitmap i 0 }

-- What `remove_inode` needs: the path names an entry of a directory that is found without it.
pub record Entry (sb : Superblock) (path : List ℕ) (i p : ℕ) (name : List ℕ) (names : List (List ℕ))
    : Type 0 where
  pub parent : List ℕ
  pub has_parent : get_parent_path true path ≡ some parent
  pub has_name : entry_name path ≡ some name
  pub found : search_inode (cleared sb i) parent ≡ some p
  pub dir : IsDir (sb.inodes p).content (sb.inodes p).size names
  pub short : AllShort max_path names

-- When the names of the directory have fewer than 256 bytes and its allocations of the parent's path
-- and of the new block succeed, `remove_inode` frees the slot and takes every entry of that name out
-- of the directory, which keeps the others in order, its size and all its other fields.
pub remove_inode-removed :
    (host : Host) (sb : Superblock) (path : List ℕ) (i p : ℕ) (name : List ℕ)
    (names : List (List ℕ))
    → Entry sb path i p name names
    → host.alloc 0 ≡ true
    → host.alloc 2 ≡ true
    → (block : List ℕ) × (remove_inode host sb path i ≡ some (removed sb i p block))
      × IsDir block (sb.inodes p).size (without name names)
remove_inode-removed host sb path i p name names en alloc alloc_path =
    finish (c_str-Split content (render names) en.dir.text)
  where
    content : List ℕ
    content = (sb.inodes p).content

    copied : Option (List ℕ × ℕ)
    copied =
        copy_entries (length (render names)) (host.alloc 1) content (length (render names)) name 0
          (replicate (sb.inodes p).size 0, (sb.inodes p).size)

    ends :
        Copies (without name names) (sb.inodes p).size copied
        → (block : List ℕ) × (remove_inode host sb path i ≡ some (removed sb i p block))
          × IsDir block (sb.inodes p).size (without name names)
    ends (block, e, d) = (
      block,
      unfold remove_inode in
          rw alloc_path (
            rw en.has_parent (
              rw en.found (
                rw en.has_name
                  (rw alloc (rw (strlen-string content (render names) en.dir.text) (rw e refl)))))),
      d,
    )

    finish :
        Split content (render names)
        → (block : List ℕ) × (remove_inode host sb path i ≡ some (removed sb i p block))
          × IsDir block (sb.inodes p).size (without name names)
    finish (pad, e, nz) =
        let total : length (render names) + length pad + 1 ≡ (sb.inodes p).size =
          omega (arith, ap length e, en.dir.sized, length-append (render names) (0 ∷ pad)) in
        ends (
          copy_entries-Copies (host.alloc 1) content pad (length (render names)) (sb.inodes p).size
            name names (length (render names)) 0 (replicate (sb.inodes p).size 0) [] en.dir.clean
            en.short e (omega arith) (omega arith) (IsDir-blank (sb.inodes p).size (omega arith))
            (omega arith))

abbrev pub done : Option Superblock → Option (Reply × Superblock)
done none = none
done (some sb) = some (ok 0, sb)

-- what `fisopfs_rmdir` owes for a directory with these names
abbrev pub rmdir_of : Host → Superblock → List ℕ → ℕ → List (List ℕ) → Option (Reply × Superblock)
rmdir_of host sb path i [] = done (remove_inode host sb path i)
rmdir_of host sb path i (n ∷ ns) = some (err enotempty, sb)

done-bind :
    (m : Option Superblock) → ◌>>=◌ {B = Reply × Superblock} m (λ sb'. some (ok 0, sb')) ≡ done m
done-bind none = refl
done-bind (some sb) = refl

rmdir-measured :
    (host : Host) (sb : Superblock) (path : List ℕ) (i : ℕ)
    → search_inode sb path ≡ some i
    → (sb.inodes i).type ≡ InodeType.inode_dir
    → (names : List (List ℕ)) → strlen (sb.inodes i).content ≡ some (length (render names))
    → rmdir host sb path ≡ rmdir_of host sb path i names
unfolding rmdir
rmdir-measured host sb path i found dir [] e =
    rw (found, rmdir) (rw (dir, rmdir) (rw e (done-bind (remove_inode host sb path i))))
rmdir-measured host sb path i found dir (n ∷ ns) e =
    rw (found, rmdir) (rw (dir, rmdir) (rw e (rw longer refl)))
  where
    longer : ltb 0 (length (render (n ∷ ns))) ≡ true
    longer = ground (arith, length-append n (newline ∷ render ns))

-- what the two calls owe for an inode of this type, when `after` is the state without the entry
abbrev pub unlink_owes : InodeType → Superblock → Superblock → Reply × Superblock
unlink_owes InodeType.inode_file sb after = (ok 0, after)
unlink_owes InodeType.inode_dir sb after = (err eisdir, sb)

abbrev pub rmdir_owes : InodeType → List (List ℕ) → Superblock → Superblock → Reply × Superblock
rmdir_owes InodeType.inode_file inner sb after = (err enotdir, sb)
rmdir_owes InodeType.inode_dir [] sb after = (ok 0, after)
rmdir_owes InodeType.inode_dir (n ∷ ns) sb after = (err enotempty, sb)

module _ (host : Host) (sb : Superblock) (path : List ℕ) (i : ℕ) (after : Superblock)
    (found : search_inode sb path ≡ some i)
    (removes : remove_inode host sb path i ≡ some after) where
  gone : done (remove_inode host sb path i) ≡ some (ok 0, after)
  gone = ap done removes

  unlink-owes :
      (t : InodeType) → (sb.inodes i).type ≡ t → unlink host sb path ≡ some (unlink_owes t sb after)
  unlink-owes InodeType.inode_file e =
      unfold unlink in
      rw (found, unlink) (rw (e, unlink) (done-bind (remove_inode host sb path i) ∙ gone))
  unlink-owes InodeType.inode_dir e = unfold unlink in rw (found, unlink) (rw (e, unlink) refl)

  owed :
      (inner : List (List ℕ))
      → rmdir_of host sb path i inner ≡ some (rmdir_owes InodeType.inode_dir inner sb after)
  owed [] = gone
  owed (n ∷ ns) = refl

  rmdir-owes :
      (inner : List (List ℕ)) (t : InodeType)
      → (sb.inodes i).type ≡ t
      → ((sb.inodes i).type ≡ InodeType.inode_dir
          → IsDir (sb.inodes i).content (sb.inodes i).size inner)
      → rmdir host sb path ≡ some (rmdir_owes t inner sb after)
  rmdir-owes inner InodeType.inode_file e d = unfold rmdir in rw (found, rmdir) (rw (e, rmdir) refl)
  rmdir-owes inner InodeType.inode_dir e d =
      rmdir-measured host sb path i found e inner
        (strlen-string (sb.inodes i).content (render inner) (d e).text)
      ∙ owed inner

-- For an inode that the path names and that is an entry of a directory whose names have fewer than
-- 256 bytes, with allocations that succeed: `fisopfs_unlink` of a file and `fisopfs_rmdir` of a
-- directory without entries free the slot and take the entries of that name out of the parent, which
-- keeps the others in order and its size. Each call refuses the other type, `fisopfs_rmdir` refuses a
-- directory that has entries, and a refusal leaves the state as it is.
pub unlink-rmdir :
    (host : Host) (sb : Superblock) (path : List ℕ) (i p : ℕ) (name : List ℕ)
    (names inner : List (List ℕ))
    → search_inode sb path ≡ some i
    → Entry sb path i p name names
    → host.alloc 0 ≡ true
    → host.alloc 2 ≡ true
    → ((sb.inodes i).type ≡ InodeType.inode_dir
        → IsDir (sb.inodes i).content (sb.inodes i).size inner)
    → (block : List ℕ) × IsDir block (sb.inodes p).size (without name names)
      × (unlink host sb path ≡ some (unlink_owes (sb.inodes i).type sb (removed sb i p block)))
      × (rmdir host sb path ≡ some (rmdir_owes (sb.inodes i).type inner sb (removed sb i p block)))
unlink-rmdir host sb path i p name names inner found en alloc alloc_path dir =
    let (block, removes, kept) =
      remove_inode-removed host sb path i p name names en alloc alloc_path in
    (
      block,
      kept,
      unlink-owes host sb path i (removed sb i p block) found removes (sb.inodes i).type refl,
      rmdir-owes host sb path i (removed sb i p block) found removes inner (sb.inodes i).type refl
          dir,
    )
