-- ===== src/Fisopfs/Ops.antt =====
-- fisopfs/fisopfs.c: the operations that the file system registers with FUSE. Each gives its reply
-- and the new state; `none` is an access outside a block. The debug output is left out.
pub mod Directories
pub mod Contents
use tps_sistemas_operativos.Prelude.{
  ℕ, zero, suc, ◌+◌, ◌-◌, ◌%◌, ◌^◌, Bool, true, false, Option, none, some, List, [], ◌∷◌, ◌++◌,
  ◌==◌, ltb, if◌then◌else◌, ◌>>=◌, length, replicate,
}
use tps_sistemas_operativos.Fisopfs.{
  InodeType, inode_file, inode_dir, Inode, Superblock, set_inode, enoent, enotdir, eisdir,
  enotempty, enomem, Reply, ok, err, Host, initial_content_length,
}
use tps_sistemas_operativos.Fisopfs.Buffer.{newline, strlen, write_at, read_at}
use tps_sistemas_operativos.Fisopfs.File.{
  recalloc, search_inode, read_line, remove_inode, add_dentry_to_parent_dir, create_inode,
}

-- `strip_newline_character`
unfoldable pub strip_newline_character : List ℕ → List ℕ
strip_newline_character [] = []
strip_newline_character (c ∷ cs) = if c == newline then [] else c ∷ strip_newline_character cs

-- the fields of `struct stat` that are filled in; `is_dir` stands for the two modes
pub record Stat : Type 0 where
  pub st_nlink : ℕ
  pub st_uid : ℕ
  pub st_gid : ℕ
  pub st_size : ℕ
  pub st_atime : ℕ
  pub st_mtime : ℕ
  pub st_ctime : ℕ
  pub is_dir : Bool

abbrev pub stat_of : Inode → Stat
stat_of inode = record {
  st_nlink = elim inode.type [ inode_file ↦ 1 | inode_dir ↦ 2 ];
  st_uid = inode.owner;
  st_gid = inode.group;
  st_size = inode.size;
  st_atime = inode.last_access;
  st_mtime = inode.last_modification;
  st_ctime = inode.creation_time;
  is_dir = elim inode.type [ inode_file ↦ false | inode_dir ↦ true ];
}

-- `fisopfs_getattr`, whose copy of the path has `max_path` bytes; `none` inside is `-ENOENT`
unfoldable pub getattr : Superblock → List ℕ → Option (Option Stat)
unfolding strip_newline_character search_inode
getattr sb path =
    if ltb 256 (length path + 1)
    then none
    else elim (search_inode sb (strip_newline_character path)) [
      | none ↦ some none
      | some i ↦ some (some (stat_of (sb.inodes i)))
    ]

-- the loop of `fisopfs_readdir`, with `fuel` rounds left
unfoldable pub readdir_loop : ℕ → List ℕ → ℕ → ℕ → Option (List (List ℕ))
readdir_loop zero content content_length offset =
    if ltb offset content_length then none else some []
readdir_loop (suc fuel) content content_length offset = elim (ltb offset content_length) [
  | false ↦ some []
  | true ↦ read_line content 1024 offset >>= λ (line, n).
      readdir_loop fuel content content_length (offset + n) >>= λ rest. some (line ∷ rest)
]

abbrev pub dots : List (List ℕ)
dots = (46 ∷ []) ∷ (46 ∷ 46 ∷ []) ∷ []

-- `fisopfs_readdir`: the reply and the names that it fills in. It marks the access in a copy of
-- the inode, so the state stays.
unfoldable pub readdir : Superblock → List ℕ → ℕ → Option (Reply × List (List ℕ))
readdir sb path offset = elim (search_inode sb path) [
  | none ↦ some (err enoent, dots)
  | some i ↦ elim (sb.inodes i).type [
    | inode_file ↦ some (err enotdir, dots)
    | inode_dir ↦ do
      content_length ← strlen (sb.inodes i).content
      names ← readdir_loop content_length (sb.inodes i).content content_length offset
      some (ok 0, dots ++ names)
  ]
]

abbrev pub size_mod : ℕ
size_mod = 2 ^ 64

-- `fisopfs_read`: the reply, the bytes that are copied, and the state. `size` and the sums are
-- `size_t`; a copy of more bytes than the caller's buffer has is outside of it.
unfoldable pub read : Host → Superblock → List ℕ → ℕ → ℕ → Option (Reply × List ℕ × Superblock)
read host sb path size offset = elim (search_inode sb path) [
  | none ↦ some (err enoent, [], sb)
  | some i ↦ elim (sb.inodes i).type [
    | inode_dir ↦ some (err eisdir, [], sb)
    | inode_file ↦ do
      let file = sb.inodes i
      let n =
          if ltb file.size ((offset + size) % size_mod)
          then (size_mod + file.size - offset) % size_mod
          else size
      bytes ← if ltb size n then none else read_at file.content offset n
      some (ok n, bytes, set_inode sb i (record file { last_access = host.time 0 }))
  ]
]

-- `fisopfs_unlink`
unfoldable pub unlink : Host → Superblock → List ℕ → Option (Reply × Superblock)
unlink host sb path = elim (search_inode sb path) [
  | none ↦ some (err enoent, sb)
  | some i ↦ elim (sb.inodes i).type [
    | inode_dir ↦ some (err eisdir, sb)
    | inode_file ↦ remove_inode host sb path i >>= λ sb'. some (ok 0, sb')
  ]
]

-- what `fisopfs_mkdir` and `fisopfs_create` do with the reply of `create_inode`
abbrev pub link_created : Host → List ℕ → Reply × Superblock → Option (Reply × Superblock)
link_created host path (ok i, sb) = add_dentry_to_parent_dir host sb path
link_created host path (err e, sb) = some (err e, sb)

-- `fisopfs_mkdir`
unfoldable pub mkdir : Host → Superblock → List ℕ → ℕ → Option (Reply × Superblock)
mkdir host sb path mode =
    create_inode host sb path mode InodeType.inode_dir >>= link_created host path

-- `fisopfs_create`
unfoldable pub create : Host → Superblock → List ℕ → ℕ → Option (Reply × Superblock)
create host sb path mode =
    create_inode host sb path mode InodeType.inode_file >>= link_created host path

-- `fisopfs_utimens`
unfoldable pub utimens : Superblock → List ℕ → ℕ → ℕ → Reply × Superblock
unfolding search_inode
utimens sb path access modification = elim (search_inode sb path) [
  | none ↦ (err enoent, sb)
  | some i ↦ (
    ok 0,
    set_inode sb i
        (record (sb.inodes i) { last_access = access; last_modification = modification }),
  )
]

-- `fisopfs_rmdir`
unfoldable pub rmdir : Host → Superblock → List ℕ → Option (Reply × Superblock)
rmdir host sb path = elim (search_inode sb path) [
  | none ↦ some (err enoent, sb)
  | some i ↦ elim (sb.inodes i).type [
    | inode_file ↦ some (err enotdir, sb)
    | inode_dir ↦ do
      content_length ← strlen (sb.inodes i).content
      (if ltb 0 content_length
          then some (err enotempty, sb)
          else (remove_inode host sb path i >>= λ sb'. some (ok 0, sb')))
  ]
]

-- the block that `fisopfs_write` writes to
abbrev pub room_for : Host → Inode → ℕ → Option (List ℕ)
room_for host file end =
    if ltb file.size end
    then if host.alloc 0
      then recalloc file.content file.size (end + initial_content_length)
      else none
    else some file.content

-- 2 ^ 31, which no `int` reaches
abbrev pub int_mod : ℕ
int_mod = 2 ^ 31

-- the conversion of a size to `int`, which is only specified for a size that an `int` can hold
abbrev pub as_int : ℕ → Option ℕ
as_int n = if ltb n int_mod then some n else none

-- `fisopfs_write` of the bytes `buffer`; the sums are `size_t`. The new size is the end of this
-- write, also where the file was longer.
unfoldable pub write : Host → Superblock → List ℕ → List ℕ → ℕ → Option (Reply × Superblock)
write host sb path buffer offset = elim (search_inode sb path) [
  | none ↦ some (err enoent, sb)
  | some i ↦ elim (sb.inodes i).type [
    | inode_dir ↦ some (err eisdir, sb)
    | inode_file ↦ do
      let file = sb.inodes i
      let end = (offset + length buffer) % size_mod
      block ← room_for host file end
      block' ← write_at block offset buffer
      new_size ← as_int end
      some (
        ok (length buffer),
        set_inode sb i
            (record file { content = block'; size = new_size; last_modification = host.time 0 }),
      )
  ]
]

-- the part of `fisopfs_truncate` for a size that is not 0: the size is set before the old one is
-- used, and the terminator goes behind the new block
abbrev pub resize : Host → Superblock → ℕ → ℕ → Option (Reply × Superblock)
resize host sb i size = do
  let file = sb.inodes i
  text_length ← strlen file.content
  new_size ← as_int size
  let sized = record file { size = new_size }
  (if host.alloc 0
      then (recalloc file.content sized.size size >>= λ block.
          (if ltb size (text_length + 1) then write_at block size (0 ∷ []) else some block)
          >>= λ block'. some (
            ok 0,
            set_inode sb i (record sized { content = block'; last_modification = host.time 0 }),
          ))
      else some (err enomem, set_inode sb i (record sized { content = [] })))

-- `fisopfs_truncate`
unfoldable pub truncate : Host → Superblock → List ℕ → ℕ → Option (Reply × Superblock)
truncate host sb path size = elim (search_inode sb path) [
  | none ↦ some (err enoent, sb)
  | some i ↦ elim (sb.inodes i).type [
    | inode_dir ↦ some (err eisdir, sb)
    | inode_file ↦
        if size == 0
        then some (
          ok 0,
          set_inode sb i (record (sb.inodes i) {
            content = if host.alloc 0 then replicate initial_content_length 0 else [];
            size = initial_content_length;
            last_modification = host.time 0;
          }),
        )
        else resize host sb i size
  ]
]
