-- ===== src/Fisopfs/Ops/Contents/Reads.antt =====
-- `fisopfs_read`: how many bytes, and from where.
use native.Mathlib.Nat.{mod-eq_of_lt}
use tps_sistemas_operativos.Prelude.{
  ℕ, ◌+◌, ◌-◌, ◌%◌, ◌≤◌, ◌<◌, ◌≡◌, refl, true, false, Option, none, some, List, ltb, leb,
  if◌then◌else◌, arith, length, take, drop,
}
use tps_sistemas_operativos.Fisopfs.{Superblock, Reply, ok, Host}
use tps_sistemas_operativos.Fisopfs.Buffer.{read_at}
use tps_sistemas_operativos.Fisopfs.Ops.{read, size_mod}
use tps_sistemas_operativos.Fisopfs.Ops.Contents.{IsFile, accessed}

-- What `fisopfs_read` of `size` bytes at `offset` owes.
pub record Reads (host : Host) (sb : Superblock) (path : List ℕ) (i offset size : ℕ) : Type 0 where
  pub within :
      offset + size ≤ (sb.inodes i).size
      → read host sb path size offset
        ≡ some (ok size, take size (drop offset (sb.inodes i).content), accessed host sb i)
  pub up_to_end :
      offset ≤ (sb.inodes i).size
      → (sb.inodes i).size < offset + size
      → read host sb path size offset
        ≡ some (
          ok ((sb.inodes i).size - offset),
          take ((sb.inodes i).size - offset) (drop offset (sb.inodes i).content),
          accessed host sb i,
        )
  pub behind_end : (sb.inodes i).size < offset → read host sb path size offset ≡ none

wrapped_down : (a b : ℕ) → b ≤ a → a < size_mod → (size_mod + a - b) % size_mod ≡ a - b
wrapped_down a b h k = omega arith

wrapped_up : (a b : ℕ) → a < b → b < size_mod → (size_mod + a - b) % size_mod ≡ size_mod + a - b
wrapped_up a b h k = mod-eq_of_lt (omega arith)

module _ (host : Host) (sb : Superblock) (path : List ℕ) (i offset size : ℕ)
    (f : IsFile sb path i) where
  -- how many bytes are copied, with the sum that was compared
  count : ℕ → ℕ
  count sum =
      if ltb (sb.inodes i).size sum
      then (size_mod + (sb.inodes i).size - offset) % size_mod
      else size

  read-count :
      (n : ℕ) (result : Option (Reply × List ℕ × Superblock))
      → count ((offset + size) % size_mod) ≡ n
      → n ≤ size
      → offset + n ≤ (sb.inodes i).size
      → some (ok n, take n (drop offset (sb.inodes i).content), accessed host sb i) ≡ result
      → read host sb path size offset ≡ result
  unfolding count read_at
  read-count n result counted h k e =
      unfold read in rw (f.found, read) (rw (f.typed, read) (rw counted (rw enough (rw inside e))))
    where
      enough : ltb size n ≡ false
      enough = ground arith

      inside : leb (offset + n) (length (sb.inodes i).content) ≡ true
      inside = ground (arith, f.sized)

  read-outside :
      (n : ℕ)
      → count ((offset + size) % size_mod) ≡ n
      → size < n
      → read host sb path size offset ≡ none
  unfolding count
  read-outside n counted h =
      unfold read in rw (f.found, read) (rw (f.typed, read) (rw counted (rw more refl)))
    where
      more : ltb size n ≡ true
      more = ground arith

-- `fisopfs_read` gives the bytes of the file from the offset on, as many as are asked for or as are
-- left before the end; at an offset behind the end it copies more bytes than the caller has room
-- for.
pub read-Reads :
    (host : Host) (sb : Superblock) (path : List ℕ) (i offset size : ℕ)
    → IsFile sb path i
    → offset + size < size_mod
    → (sb.inodes i).size < size_mod
    → Reads host sb path i offset size
unfolding count
read-Reads host sb path i offset size f small small' = record {
  within = λ h.
      read-count host sb path i offset size f size
        (some (ok size, take size (drop offset (sb.inodes i).content), accessed host sb i))
        (rw sum (rw (short h) refl)) (omega arith) h refl;
  up_to_end = λ h k.
      read-count host sb path i offset size f ((sb.inodes i).size - offset)
        (some (
          ok ((sb.inodes i).size - offset),
          take ((sb.inodes i).size - offset) (drop offset (sb.inodes i).content),
          accessed host sb i,
        ))
        (rw sum (rw (long k) (wrapped_down (sb.inodes i).size offset h small'))) (omega arith)
        (omega arith) refl;
  behind_end = λ h.
      read-outside host sb path i offset size f (size_mod + (sb.inodes i).size - offset)
        (rw sum (rw (long (omega arith)) (wrapped_up (sb.inodes i).size offset h (omega arith))))
        (omega arith);
}
  where
    sum : (offset + size) % size_mod ≡ offset + size
    sum = mod-eq_of_lt small

    short : offset + size ≤ (sb.inodes i).size → ltb (sb.inodes i).size (offset + size) ≡ false
    short h = ground arith

    long : (sb.inodes i).size < offset + size → ltb (sb.inodes i).size (offset + size) ≡ true
    long h = ground arith
