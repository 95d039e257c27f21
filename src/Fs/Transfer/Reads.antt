-- ===== src/Fs/Transfer/Reads.antt =====
-- `ReadFile` of OS/hw3/fs.c.
use kw_home_work.Common.{
  ℕ, ◌+◌, ◌/◌, ◌^◌, ◌<◌, ◌≤◌, ◌≡◌, refl, true, some, List, arith, leb, ltb, length, get_elem?, take,
  set, get_elem?-set_self,
}
use kw_home_work.Disk.{Block, block_size}
use kw_home_work.Bytes.{slice}
use kw_home_work.Store.{BlockStore}
use kw_home_work.Inode.{Inode}
use kw_home_work.Inode.Stored.{IsInode, num_of_inodes, get_inode-IsInode}
use kw_home_work.Fs.{◌>>=◌, number, ptrs, Mounted, File, FileDesc, FilePtr, file_of, advance}
use kw_home_work.Fs.Walk.Search.{Same}
use kw_home_work.Fs.Transfer.{memory, read_file}

-- The descriptor is in the table, with an open file.
abbrev pub IsOpen : {State : Type 0} → ℕ → File → Mounted State → Type 0
IsOpen fd file fs =
    (d : FileDesc) × (get_elem? fs.file_desc fd ≡ some d) × (d.open_file ≡ FilePtr.opened file)

module _ {State : Type 0} (fd : ℕ) (file : File) (fs : Mounted State)
    (is_open : IsOpen fd file fs) where
  pub file_of-IsOpen : file_of fd fs ≡ some (file, fs)
  unfolding file_of
  file_of-IsOpen = rw (is_open.1, file_of) (rw (is_open.2, file_of) refl)

  -- The table after `advance`.
  unfoldable pub moved : ℕ → Mounted State
  moved n = record fs {
    file_desc = set fs.file_desc fd (record is_open.0 {
      open_file = FilePtr.opened (record file { file_offset = file.file_offset + n });
    });
  }

  pub advance-IsOpen : (n : ℕ) → advance fd n file fs ≡ some (tt, moved n)
  unfolding advance moved
  advance-IsOpen n = rw (is_open.1, advance) refl

  pub moved-IsOpen :
      (n : ℕ) → IsOpen fd (record file { file_offset = file.file_offset + n }) (moved n)
  unfolding moved
  moved-IsOpen n = (
    record is_open.0 {
      open_file = FilePtr.opened (record file { file_offset = file.file_offset + n });
    },
    get_elem?-set_self fs.file_desc fd is_open.0 _ is_open.1,
    refl,
  )

pub memory_lem :
    {S : Type 0} (o n : ℕ) (buffer : List ℕ) (s : S)
    → o + n ≤ length buffer
    → memory o n buffer s ≡ some (slice o n buffer, s)
unfolding memory
memory_lem o n buffer s h =
    let inside : leb (o + n) (length buffer) ≡ true = ground arith in rw (inside, memory) refl

pub number_lem : {S : Type 0} (n : ℕ) (s : S) → n < 2 ^ 31 → number n s ≡ some (n, s)
number_lem n s h = let small : ltb n (2 ^ 31) ≡ true = ground arith in rw (small, number) refl

module _ (store : BlockStore) where
  open store use {State, IsValid, block, buf_read, read_law}

  -- `ReadFile` of at most a block, through an open descriptor whose offset is in block `k` of a stored
  -- inode, where that block is whole: it returns the first bytes of the block and the result 512, moves
  -- the offset on by 512, and changes no readable block.
  pub read_file-Read :
      (fd len k p : ℕ) (file : File) (i : Inode) (d : Block) (fs : Mounted State)
      → IsOpen fd file fs
      → IsValid fs.store
      → file.inode_num < num_of_inodes
      → IsInode store file.inode_num i fs.store
      → file.file_offset / block_size ≡ k
      → get_elem? (ptrs i) k ≡ some p
      → p < 2 ^ 31
      → block p fs.store ≡ some d
      → len ≤ length d
      → (fs' : Mounted State) × (read_file store fd len fs ≡ some ((take len d, block_size), fs'))
        × IsValid fs'.store
        × Same store fs.store fs'.store
        × IsOpen fd (record file { file_offset = file.file_offset + block_size }) fs'
  unfolding read_file slice moved
  read_file-Read fd len k p file i d fs is_open v listed stored_inode at_k ptr small at room =
      let (s1, got, v1, k1) =
        get_inode-IsInode store file.inode_num i fs.store listed v stored_inode in
      let (s2, read, v2, k2) = read_law s1 p d v1 (k1 p d at) in
      let fs2 : Mounted State = record fs { store = s2 } in
      (
        moved fd file fs2 is_open block_size,
        rw
            (
              file_of-IsOpen fd file fs is_open,
              ◌>>=◌,
              number_lem {S = Mounted State} file.inode_num fs (omega arith),
              got,
              at_k,
              ptr,
              number_lem {S = Mounted State} p (record fs { store = s1 }) small,
              read,
              advance-IsOpen fd file fs2 is_open block_size,
              memory_lem {S = Mounted State} 0 len d (moved fd file fs2 is_open block_size)
                  (omega arith),
              read_file,
            )
            refl,
        v2,
        (λ x y e. k2 x y (k1 x y e)),
        moved-IsOpen fd file fs2 is_open block_size,
      )
