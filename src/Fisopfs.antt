-- ===== src/Fisopfs.antt =====
-- The state of the file system of fisopfs: fisopfs/file.h.
pub mod Buffer
pub mod File
pub mod Ops
pub mod Disk
mod Tests
use tps_sistemas_operativos.Prelude.{ℕ, Bool, List, [], if◌then◌else◌, update}

abbrev pub initial_content_length : ℕ
initial_content_length = 1024

abbrev pub initial_inodes_amount : ℕ
initial_inodes_amount = 1024

abbrev pub max_path : ℕ
max_path = 256

pub data InodeType : Type 0 where
  inode_file inode_dir : InodeType

-- A path is its bytes before the terminator. `content` is the block that the pointer shows, all
-- its allocated bytes, and is empty for a null pointer; `size` counts as the code counts it.
pub record Inode : Type 0 where
  pub path : List ℕ
  pub content : List ℕ
  pub size : ℕ
  pub type : InodeType
  pub last_access : ℕ
  pub last_modification : ℕ
  pub creation_time : ℕ
  pub group : ℕ
  pub owner : ℕ
  pub permissions : ℕ

-- what `calloc` leaves in a slot
abbrev pub blank : Inode
blank = record {
  path = [];
  content = [];
  size = 0;
  type = InodeType.inode_file;
  last_access = 0;
  last_modification = 0;
  creation_time = 0;
  group = 0;
  owner = 0;
  permissions = 0;
}

-- The two arrays are read and written below `inode_amount` only.
pub record Superblock : Type 0 where
  pub inodes : ℕ → Inode
  pub inode_bitmap : ℕ → ℕ
  pub inode_amount : ℕ

abbrev pub set_inode : Superblock → ℕ → Inode → Superblock
set_inode sb i v = record sb { inodes = update sb.inodes i v }

pub data Errno : Type 0 where
  enoent enotdir eisdir enotempty enametoolong enomem : Errno

-- What a call returns: a number that is not negative, or an error.
pub data Reply : Type 0 where
  ok : ℕ → Reply
  err : Errno → Reply

-- What the system decides: does the `n`-th allocation of the call succeed, what does its `n`-th
-- `time(NULL)` give, and whose process is it?
pub record Host : Type 0 where
  pub alloc : ℕ → Bool
  pub time : ℕ → ℕ
  pub path_room : ℕ
  pub gid : ℕ
  pub uid : ℕ
