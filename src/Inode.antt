-- ===== src/Inode.antt =====
-- `Inode` of OS/hw3/fs.h, and `PutInode` and `GetInode` of OS/hw3/fs_internal.c: the inode list is
-- blocks 3 to 6, sixteen inodes of 32 bytes to a block.
pub mod Layout
pub mod Stored
use kw_home_work.Common.{ℕ, ◌+◌, ◌*◌, ◌/◌, ◌%◌, Option, none, some, List, [], ◌∷◌, get_or}
use kw_home_work.Disk.{Block}
use kw_home_work.Bytes.{slice, splice}
use kw_home_work.Bytes.Words.{ints_bytes, ints_of}
use kw_home_work.Store.{BlockStore}

-- The fields are the bit patterns of `int`s. `dirBlockPtr` is an array of five.
pub record Inode : Type 0 where
  pub alloc_blocks : ℕ
  pub size : ℕ
  pub type : ℕ
  pub ptr0 : ℕ
  pub ptr1 : ℕ
  pub ptr2 : ℕ
  pub ptr3 : ℕ
  pub ptr4 : ℕ

abbrev pub num_of_inode_per_block : ℕ
num_of_inode_per_block = 16

abbrev pub inodelist_block_first : ℕ
inodelist_block_first = 3

abbrev pub sizeof_inode : ℕ
sizeof_inode = 32

unfoldable pub inode_bytes : Inode → List ℕ
unfolding ints_bytes
inode_bytes i =
    ints_bytes (i.alloc_blocks ∷ i.size ∷ i.type ∷ i.ptr0 ∷ i.ptr1 ∷ i.ptr2 ∷ i.ptr3 ∷ i.ptr4 ∷ [])

unfoldable pub inode_of_ints : List ℕ → Inode
inode_of_ints ws = record {
  alloc_blocks = get_or ws 0 0;
  size = get_or ws 1 0;
  type = get_or ws 2 0;
  ptr0 = get_or ws 3 0;
  ptr1 = get_or ws 4 0;
  ptr2 = get_or ws 5 0;
  ptr3 = get_or ws 6 0;
  ptr4 = get_or ws 7 0;
}

unfoldable pub inode_of : List ℕ → Inode
unfolding inode_of_ints ints_of
inode_of bytes = inode_of_ints (ints_of bytes)

-- `memcpy` to and from `pData[idx]`.
unfoldable pub write_inode : ℕ → Inode → Block → Block
unfolding splice inode_bytes
write_inode idx i block = splice (idx * sizeof_inode) (inode_bytes i) block

unfoldable pub read_inode : ℕ → Block → Inode
unfolding slice inode_of
read_inode idx block = inode_of (slice (idx * sizeof_inode) sizeof_inode block)

module _ (store : BlockStore) where
  open store use {State, buf_read, buf_write}

  unfoldable pub put_inode : ℕ → Inode → State → Option State
  put_inode inodeno i s =
      let blkno = inodeno / num_of_inode_per_block + inodelist_block_first in
      let idx = inodeno % num_of_inode_per_block in
      elim (buf_read blkno s) [
        | none ↦ none
        | some (block, s1) ↦ buf_write blkno (write_inode idx i block) s1
      ]

  unfoldable pub get_inode : ℕ → State → Option (Inode × State)
  get_inode inodeno s =
      let blkno = inodeno / num_of_inode_per_block + inodelist_block_first in
      let idx = inodeno % num_of_inode_per_block in
      elim (buf_read blkno s) [ none ↦ none | some (block, s1) ↦ some (read_inode idx block, s1) ]
