-- ===== src/Fisopfs/Ops/Contents/Truncate.antt =====
-- `fisopfs_truncate`: which sizes stay inside the blocks of the file.
use tps_sistemas_operativos.Prelude.{ℕ, ◌≤◌, ◌<◌, ◌≡◌, none, some, List, length, take}
use tps_sistemas_operativos.Fisopfs.{Superblock, set_inode, ok, Host}
use tps_sistemas_operativos.Fisopfs.Ops.{truncate}

abbrev pub cut : Host → Superblock → ℕ → ℕ → Superblock
cut host sb i size = set_inode sb i (record (sb.inodes i) {
  content = take size (sb.inodes i).content;
  size = size;
  last_modification = host.time 0;
})

-- What `fisopfs_truncate` to a size that is not 0 does to a file that holds a string of `n` bytes.
pub record Resizes (host : Host) (sb : Superblock) (path : List ℕ) (i size n : ℕ) : Type 0 where
  pub keeps :
      n < size
      → size ≤ length (sb.inodes i).content
      → truncate host sb path size ≡ some (ok 0, cut host sb i size)
  pub shrinks : size ≤ n → truncate host sb path size ≡ none
  pub grows : length (sb.inodes i).content < size → truncate host sb path size ≡ none
