-- ===== src/Inode/Layout.antt =====
-- One block of the inode list of OS/hw3: the sixteen inodes in it.
use kw_home_work.Common.{ℕ, ◌*◌, ◌<◌, ◌≡◌, ◌≢◌, refl, ap, ◌∙◌, [], ◌∷◌, arith, length}
use native.Mathlib.Decide.{dec_lt}
use kw_home_work.Disk.{Block, block_size}
use kw_home_work.Bytes.{length-splice, slice-splice_self, slice-splice_above, slice-splice_below}
use kw_home_work.Bytes.Words.{AreInts, ints_of-ints_bytes}
use kw_home_work.Inode.{
  Inode, sizeof_inode, num_of_inode_per_block, inode_bytes, inode_of, inode_of_ints, write_inode,
  read_inode,
}

-- Each field fits an `int`.
abbrev pub Fits : Inode → Type 0
Fits i =
    AreInts (i.alloc_blocks ∷ i.size ∷ i.type ∷ i.ptr0 ∷ i.ptr1 ∷ i.ptr2 ∷ i.ptr3 ∷ i.ptr4 ∷ [])

length-inode_bytes : (i : Inode) → length (inode_bytes i) ≡ sizeof_inode
unfolding inode_bytes
length-inode_bytes i = refl

pub inode_of-inode_bytes : (i : Inode) → Fits i → inode_of (inode_bytes i) ≡ i
unfolding inode_of inode_bytes
inode_of-inode_bytes i h = ap inode_of_ints (
    ints_of-ints_bytes
      (i.alloc_blocks ∷ i.size ∷ i.type ∷ i.ptr0 ∷ i.ptr1 ∷ i.ptr2 ∷ i.ptr3 ∷ i.ptr4 ∷ []) h)

module _ (k : ℕ) (i : Inode) (block : Block) (in_block : k < num_of_inode_per_block)
    (size : length block ≡ block_size) where
  pub length-write_inode : length (write_inode k i block) ≡ block_size
  unfolding write_inode
  length-write_inode = length-splice (k * sizeof_inode) (inode_bytes i) block ∙ size

  pub read-write_inode_self : Fits i → read_inode k (write_inode k i block) ≡ i
  unfolding write_inode read_inode
  read-write_inode_self h =
      ap inode_of (
        slice-splice_self (k * sizeof_inode) (inode_bytes i) block
          (omega (arith, length-inode_bytes i)))
      ∙ inode_of-inode_bytes i h

  pub read-write_inode_ne :
      (j : ℕ) → j ≢ k → read_inode j (write_inode k i block) ≡ read_inode j block
  unfolding write_inode read_inode
  read-write_inode_ne j ne = elim (dec_lt j k) [
    | yes below ↦ ap inode_of (
        slice-splice_below (k * sizeof_inode) (inode_bytes i) block (j * sizeof_inode) sizeof_inode
          (omega arith))
    | no above ↦ ap inode_of (
        slice-splice_above (k * sizeof_inode) (inode_bytes i) block (j * sizeof_inode) sizeof_inode
          (omega (arith, length-inode_bytes i)))
  ]
