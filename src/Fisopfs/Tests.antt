-- ===== src/Fisopfs/Tests.antt =====
-- A file system with a root directory and one file in it.
use tps_sistemas_operativos.Prelude.{
  ℕ, ◌+◌, ◌≡◌, ◌≤◌, Bool-cases, inl, inr, ◌<◌, refl, List, [], ◌∷◌, ◌++◌, true, none, some, ◌==◌,
  if◌then◌else◌, length, arith,
}
use tps_sistemas_operativos.Fisopfs.{
  InodeType, Inode, blank, Superblock, Host, initial_content_length, ok,
}
use tps_sistemas_operativos.Fisopfs.Buffer.{c_str, strrchr, find_from}
use tps_sistemas_operativos.Fisopfs.File.{
  get_parent_path, entry_name, search_inode, add_dentry_to_content, remove_inode,
}
use tps_sistemas_operativos.Fisopfs.File.Dir.{IsDir, render}
use tps_sistemas_operativos.Fisopfs.File.Dir.Add.{Added, add_dentry_to_content-IsDir}
use tps_sistemas_operativos.Fisopfs.File.Dir.Lines.{without}
use tps_sistemas_operativos.Fisopfs.Ops.{readdir, dots, unlink, rmdir}
use tps_sistemas_operativos.Fisopfs.Ops.Directories.{
  readdir-IsDir, Entry, removed, remove_inode-removed, unlink_owes, rmdir_owes, unlink-rmdir,
}
use tps_sistemas_operativos.Fisopfs.Disk.Reload.{Reloads, serialize-Reloads}
use tps_sistemas_operativos.Fisopfs.Ops.Contents.{IsFile, WriteRead, write-read}
use tps_sistemas_operativos.Fisopfs.Ops.Contents.Reads.{Reads, read-Reads}

abbrev host : Host
host = record { alloc = λ n. true; time = λ n. 7; path_room = 1; gid = 0; uid = 0 }

abbrev root_path : List ℕ
root_path = 47 ∷ []

-- `/a`
abbrev file_path : List ℕ
file_path = 47 ∷ 97 ∷ []

abbrev listing : List ℕ
listing = 97 ∷ 10 ∷ 0 ∷ 0 ∷ 0 ∷ 0 ∷ []

abbrev root : Inode
root = record blank { path = root_path; content = listing; size = 6; type = InodeType.inode_dir }

abbrev file : Inode
file = record blank { path = file_path; content = 120 ∷ 121 ∷ 0 ∷ 0 ∷ 0 ∷ []; size = 4 }

abbrev disk : Superblock
disk = record {
  inodes = λ i. if i == 0 then root else if i == 1 then file else blank;
  inode_bitmap = λ i. if i == 0 then 1 else if i == 1 then 1 else 0;
  inode_amount = 4;
}

abbrev names : List (List ℕ)
names = (97 ∷ []) ∷ []

abbrev added : List ℕ
added = 98 ∷ []

listing-IsDir : IsDir listing 6 names
listing-IsDir = record {
  text = unfold c_str in refl;
  sized = refl;
  clean = (((λ e. absurd (omega arith)), (λ e. absurd (omega arith)), tt), tt);
}

root_found : search_inode disk root_path ≡ some 0
unfolding search_inode find_from
root_found = refl

file_found : search_inode disk file_path ≡ some 1
unfolding search_inode find_from
file_found = refl

disk-IsFile : IsFile disk file_path 1
disk-IsFile = record { found = file_found; typed = refl; sized = omega arith }

add_dentry_to_content-IsDir_example :
    (length (render names) + length (added) + 1 < 6 → Added true 9 listing 6 names (added) 6)
    × (6 < length (render names) + length (added) + 1
        → Added true 9 listing 6 names (added) (6 + (length (added) + 1) + initial_content_length))
    × (length (render names) + length (added) + 1 ≡ 6
        → add_dentry_to_content true 9 listing 6 (added) ≡ none)
add_dentry_to_content-IsDir_example =
    add_dentry_to_content-IsDir true 9 listing 6 names (added) listing-IsDir
      ((λ e. absurd (omega arith)), (λ e. absurd (omega arith)), tt) (omega arith)

readdir-IsDir_example : readdir disk root_path 0 ≡ some (ok 0, dots ++ names)
readdir-IsDir_example =
    readdir-IsDir disk root_path 0 names root_found refl listing-IsDir (omega arith, tt)

disk-Entry : Entry disk file_path 1 0 (97 ∷ []) names
unfolding get_parent_path entry_name strrchr search_inode find_from
disk-Entry = record {
  parent = root_path;
  has_parent = refl;
  has_name = refl;
  found = refl;
  dir = listing-IsDir;
  short = (omega arith, tt);
}

remove_inode-removed_example :
    (block : List ℕ) × (remove_inode host disk file_path 1 ≡ some (removed disk 1 0 block))
    × IsDir block 6 (without (97 ∷ []) names)
remove_inode-removed_example =
    remove_inode-removed host disk file_path 1 0 (97 ∷ []) names disk-Entry refl refl

unlink-rmdir_example :
    (block : List ℕ) × IsDir block 6 (without (97 ∷ []) names)
    × (unlink host disk file_path
        ≡ some (unlink_owes InodeType.inode_file disk (removed disk 1 0 block)))
    × (rmdir host disk file_path
        ≡ some (rmdir_owes InodeType.inode_file [] disk (removed disk 1 0 block)))
unlink-rmdir_example =
    unlink-rmdir host disk file_path 1 0 (97 ∷ []) names [] file_found disk-Entry refl refl
      (λ e. absurd (ground (arith, e)))

write-read_example : WriteRead host disk file_path (65 ∷ 66 ∷ []) 1 3
write-read_example =
    write-read host disk file_path (65 ∷ 66 ∷ []) 1 3 disk-IsFile refl (omega arith)

read-Reads_example : Reads host disk file_path 1 1 9
read-Reads_example = read-Reads host disk file_path 1 1 9 disk-IsFile (omega arith) (omega arith)

disk-backed :
    (j : ℕ)
    → (disk.inode_bitmap j == 1) ≡ true
    → (disk.inodes j).size ≤ length (disk.inodes j).content
disk-backed j e = elim (Bool-cases (j == 0)) [
  | inl p ↦ rw p (omega arith)
  | inr p ↦ elim (Bool-cases (j == 1)) [
    | inl q ↦ rw p (rw q (omega arith))
    | inr q ↦ rw p (rw q (omega arith))
  ]
]

serialize-Reloads_example : Reloads host disk
serialize-Reloads_example = serialize-Reloads host disk (λ j. refl) disk-backed
