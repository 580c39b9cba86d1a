-- ===== src/Fisopfs/File.antt =====
-- fisopfs/file.c: inodes, paths and directory entries.
pub mod Dir
use tps_sistemas_operativos.Prelude.{
  ℕ, zero, suc, ◌+◌, Bool, true, false, not, ◌&&◌, Option, none, some, List, [], ◌∷◌, ◌++◌, ◌==◌,
  ltb, leb, if◌then◌else◌, ◌>>=◌, length, take, drop, replicate, update,
}
use tps_sistemas_operativos.Fisopfs.{
  InodeType, inode_file, inode_dir, blank, Superblock, set_inode, enoent, enotdir, enametoolong,
  enomem, Reply, ok, err, Host, initial_content_length, initial_inodes_amount, max_path,
}
use tps_sistemas_operativos.Fisopfs.Buffer.{
  newline, slash, str_eq, strlen, write_at, strcpy_at, strrchr, find_from,
}

-- `recalloc` once its allocation has succeeded: a block of `new_count` bytes that begins with
-- `old_size` bytes of the old one
unfoldable pub recalloc : List ℕ → ℕ → ℕ → Option (List ℕ)
unfolding write_at
recalloc ptr old_size new_count =
    if leb old_size (length ptr)
    then write_at (replicate new_count 0) 0 (take old_size ptr)
    else none

-- `get_parent_path`; `alloc` is whether its allocation succeeds. `none` is the copy to the null
-- pointer, or the write through the null pointer of a path with no slash.
unfoldable pub get_parent_path : Bool → List ℕ → Option (List ℕ)
unfolding strrchr
get_parent_path alloc path = if not alloc then none else elim (strrchr path) [
  | none ↦ none
  | some (parent, entry) ↦ some (elim parent [ [] ↦ slash ∷ [] | c ∷ cs ↦ c ∷ cs ])
]

-- the name behind the last slash
unfoldable pub entry_name : List ℕ → Option (List ℕ)
unfolding strrchr
entry_name path = strrchr path >>= λ (parent, entry). some entry

abbrev pub holds : Superblock → List ℕ → ℕ → Bool
holds sb path i = not (sb.inode_bitmap i == 0) && str_eq (sb.inodes i).path path

-- `search_inode`: `none` is `ERROR`.
unfoldable pub search_inode : Superblock → List ℕ → Option ℕ
unfolding find_from
search_inode sb path = find_from sb.inode_amount 0 (holds sb path)

abbrev pub or_end : ℕ → Option ℕ → ℕ
or_end n none = n
or_end n (some i) = i

-- `search_next_free_inode`
unfoldable pub search_next_free_inode : Superblock → ℕ
unfolding find_from
search_next_free_inode sb =
    or_end sb.inode_amount (find_from sb.inode_amount 0 (λ i. sb.inode_bitmap i == 0))

-- the bytes of a line, and whether a newline ends it rather than the terminator
unfoldable pub line_at : List ℕ → Option (List ℕ × Bool)
line_at [] = none
line_at (b ∷ bs) =
    let rest = line_at bs in
    if b == newline
    then some ([], true)
    else if b == 0
    then some ([], false)
    else (rest >>= λ (line, ended). some (b ∷ line, ended))

-- `read_line` into a buffer of `capacity` bytes: the line, and the number that it returns
unfoldable pub read_line : List ℕ → ℕ → ℕ → Option (List ℕ × ℕ)
unfolding line_at
read_line content capacity offset = line_at (drop offset content) >>= λ (line, ended).
    if not ended && (length line == 0)
    then some ([], 0)
    else if leb (length line + 1) capacity
    then some (line, length line + 1)
    else none

-- `add_dentry_to_content` behind its writes to the caller's buffer
unfoldable pub append_dentry : Bool → List ℕ → ℕ → List ℕ → Option (List ℕ × ℕ)
append_dentry alloc content content_size dentry = do
  let line = dentry ++ newline ∷ []
  content_length ← strlen content
  let new_size = content_size + length line + initial_content_length
  let grown = if alloc then recalloc content content_length new_size else none
  (block, size) ←
      (if ltb content_size (content_length + length line)
        then (grown >>= λ block. some (block, new_size))
        else some (content, content_size))
  block' ← strcpy_at block content_length line
  some (block', size)

-- `add_dentry_to_content`, on a block and its size, for an entry in a buffer of `capacity` bytes, to
-- which it writes a newline and a terminator; `alloc` is whether its allocation succeeds. A null
-- block is written to where it fails: the test that follows looks at the wrong pointer.
unfoldable pub add_dentry_to_content : Bool → ℕ → List ℕ → ℕ → List ℕ → Option (List ℕ × ℕ)
add_dentry_to_content alloc capacity content content_size dentry =
    if leb (length dentry + 2) capacity
    then append_dentry alloc content content_size dentry
    else none

-- The loop of `remove_inode` with `fuel` rounds left: it copies the other entries.
unfoldable pub copy_entries : ℕ → Bool → List ℕ → ℕ → List ℕ → ℕ → List ℕ × ℕ → Option (List ℕ × ℕ)
copy_entries zero alloc content content_length name offset new =
    if ltb offset content_length then none else some new
copy_entries (suc fuel) alloc content content_length name offset new =
    elim (ltb offset content_length) [
      | false ↦ some new
      | true ↦ read_line content (max_path + 1) offset >>= λ (line, n).
          (if str_eq line name
            then some new
            else add_dentry_to_content alloc (max_path + 1) new.0 new.1 line)
          >>= copy_entries fuel alloc content content_length name (offset + n)
    ]

-- `remove_inode`; without a parent it reads through the null pointer. What becomes of the freed
-- block of the inode does not matter: its slot is not read again before it is filled.
unfoldable pub remove_inode : Host → Superblock → List ℕ → ℕ → Option Superblock
remove_inode host sb path inode_index = do
  let cleared = record sb { inode_bitmap = update sb.inode_bitmap inode_index 0 }
  parent_path ← get_parent_path (host.alloc 2) path
  parent_index ← search_inode cleared parent_path
  let parent = cleared.inodes parent_index
  name ← entry_name path
  let fresh = if host.alloc 0 then some (replicate parent.size 0) else none
  new_content ← fresh
  content_length ← strlen parent.content
  (block, size) ←
      copy_entries content_length (host.alloc 1) parent.content content_length name 0
        (new_content, parent.size)
  some (set_inode cleared parent_index (record parent { content = block; size = size }))

-- `add_dentry_to_parent_dir`. It writes a newline and a terminator behind the path that it is given,
-- in the buffer of the caller.
unfoldable pub add_dentry_to_parent_dir : Host → Superblock → List ℕ → Option (Reply × Superblock)
add_dentry_to_parent_dir host sb path = do
  parent_path ← get_parent_path (host.alloc 4) path
  elim (search_inode sb parent_path) [
    | none ↦ some (err enoent, sb)
    | some dir_index ↦ elim (sb.inodes dir_index).type [
      | inode_file ↦ some (err enotdir, sb)
      | inode_dir ↦ do
        let parent = sb.inodes dir_index
        name ← entry_name path
        (block, size) ←
            add_dentry_to_content (host.alloc 3) (length name + 1 + host.path_room) parent.content
              parent.size name
        some (ok 0, set_inode sb dir_index (record parent { content = block; size = size }))
    ]
  ]

-- the new arrays of `create_inode`, zero behind the old ones
abbrev pub grow {ℓ} : {A : Type ℓ} → (ℕ → A) → ℕ → A → ℕ → A
grow f n zero_value i = if ltb i n then f i else zero_value

-- the end of `create_inode`; `strcpy` needs a byte more than the path has
unfoldable pub fill_inode :
    Host → Superblock → List ℕ → ℕ → InodeType → ℕ → Option (Reply × Superblock)
fill_inode host sb path mode type free_index =
    if ltb max_path (length path + 1)
    then none
    else if host.alloc 2
    then some (
      ok free_index,
      record sb {
        inodes = update sb.inodes free_index (record {
          path = path;
          content = replicate initial_content_length 0;
          size = initial_content_length;
          type = type;
          last_access = host.time 0;
          last_modification = host.time 1;
          creation_time = host.time 2;
          group = host.gid;
          owner = host.uid;
          permissions = mode;
        });
        inode_bitmap = update sb.inode_bitmap free_index 1;
      },
    )
    else some (
      err enomem,
      set_inode sb free_index (record (sb.inodes free_index) { path = path; content = [] }),
    )

-- `create_inode`
unfoldable pub create_inode :
    Host → Superblock → List ℕ → ℕ → InodeType → Option (Reply × Superblock)
create_inode host sb path mode type =
    if ltb max_path (length path)
    then some (err enametoolong, sb)
    else let free_index = search_next_free_inode sb in
      let n = sb.inode_amount in
      if not (free_index == n)
      then fill_inode host sb path mode type free_index
      else if not (host.alloc 0)
      then some (err enomem, sb)
      else let moved = record sb { inodes = grow sb.inodes n blank } in
        if not (host.alloc 1)
        then some (err enomem, moved)
        else fill_inode host
            (record moved {
              inode_bitmap = grow sb.inode_bitmap n 0;
              inode_amount = n + initial_inodes_amount;
            })
            path mode type free_index
