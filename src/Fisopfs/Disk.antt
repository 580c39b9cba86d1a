-- ===== src/Fisopfs/Disk.antt =====
-- fisopfs/file.c and fisopfs/fisopfs.c: saving the file system to its file, and loading it.
pub mod Reload
use tps_sistemas_operativos.Prelude.{
  ℕ, zero, suc, ◌+◌, ◌-◌, Bool, true, false, Option, none, some, List, [], ◌∷◌, ◌++◌, ◌==◌,
  if◌then◌else◌, ◌>>=◌, length, take, replicate, update,
}
use tps_sistemas_operativos.Fisopfs.{InodeType, Inode, blank, Superblock, Host}
use tps_sistemas_operativos.Fisopfs.Buffer.{slash, read_at}
use tps_sistemas_operativos.Fisopfs.File.{create_inode}

-- The file: a number, then for each inode its structure, in which the pointer means nothing, and
-- its bytes. Fewer inodes than the number says, or fewer bytes, are a file that was cut off. Reads
-- and writes of the file do not fail.
pub record Saved : Type 0 where
  pub amount : ℕ
  pub entries : List (Inode × List ℕ)

-- the count at the head of `serialize`, with `n` rounds left
unfoldable pub count_active : ℕ → ℕ → Superblock → ℕ
count_active zero i sb = 0
count_active (suc n) i sb =
    let rest = count_active n (i + 1) sb in if sb.inode_bitmap i == 1 then suc rest else rest

-- the loop of `serialize`, with `n` rounds left
unfoldable pub save_loop : ℕ → ℕ → Superblock → Option (List (Inode × List ℕ))
unfolding read_at
save_loop zero i sb = some []
save_loop (suc n) i sb = elim (sb.inode_bitmap i == 1) [
  | false ↦ save_loop n (i + 1) sb
  | true ↦ do
    bytes ← read_at (sb.inodes i).content 0 (sb.inodes i).size
    rest ← save_loop n (i + 1) sb
    some ((record (sb.inodes i) { content = [] }, bytes) ∷ rest)
]

-- `serialize`
unfoldable pub serialize : Superblock → Option Saved
unfolding count_active save_loop
serialize sb = do
  entries ← save_loop sb.inode_amount 0 sb
  some (record { amount = count_active sb.inode_amount 0 sb; entries = entries })

-- a block of zeros, `size` long, into which the bytes are read
abbrev pub filled : ℕ → List ℕ → List ℕ
filled size bytes = take size bytes ++ replicate (size - length bytes) 0

-- the loop of `deserialize`, with `n` rounds left: `none` is its error
unfoldable pub load_loop : Host → ℕ → ℕ → List (Inode × List ℕ) → Superblock → Option Superblock
load_loop host zero i entries sb = some sb
load_loop host (suc n) i [] sb = some sb
load_loop host (suc n) i ((inode, bytes) ∷ rest) sb =
    let loaded = record sb {
      inodes = update sb.inodes i (record inode { content = filled inode.size bytes });
      inode_bitmap = update sb.inode_bitmap i 1;
    } in
    let next = load_loop host n (i + 1) rest loaded in if host.alloc (i + 2) then next else none

abbrev pub empty : Superblock
empty = record { inodes = λ i. blank; inode_bitmap = λ i. 0; inode_amount = 0 }

abbrev pub or_empty : Option Superblock → Superblock
or_empty none = empty
or_empty (some sb) = sb

-- `deserialize`: the two arrays are used without a look at whether they were allocated.
unfoldable pub deserialize : Host → Saved → Option Superblock
unfolding load_loop
deserialize host saved =
    if host.alloc 0
    then if host.alloc 1
      then some (
          or_empty (
            load_loop host saved.amount 0 saved.entries
              (record empty { inode_amount = saved.amount })))
      else none
    else none

-- `__S_IFDIR | 0755`
abbrev pub root_mode : ℕ
root_mode = 0o40755

-- `fisopfs_init` on the file, or on none
unfoldable pub init : Host → Option Saved → Option Superblock
unfolding create_inode deserialize
init host none =
    create_inode host empty (slash ∷ []) root_mode InodeType.inode_dir >>= λ (r, sb). some sb
init host (some saved) = deserialize host saved

-- `fisopfs_destroy`: the file that is left, `none` inside when it cannot be opened
unfoldable pub destroy : Bool → Superblock → Option (Option Saved)
unfolding serialize
destroy true sb = serialize sb >>= λ saved. some (some saved)
destroy false sb = some none
