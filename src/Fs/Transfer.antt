-- ===== src/Fs/Transfer.antt =====
-- `WriteFile` and `ReadFile` of OS/hw3/fs.c. `length` is at least 0.
pub mod Reads
pub mod Alloc
pub mod Writes
use kw_home_work.Common.{
  ℕ, zero, suc, ◌+◌, ◌-◌, ◌*◌, ◌/◌, Option, none, some, List, ◌==◌, leb, ltb, if◌then◌else◌, length,
  get_elem?, get_or, take,
}
use kw_home_work.Disk.{Block, block_size}
use kw_home_work.Bytes.{slice}
use kw_home_work.Store.{BlockStore}
use kw_home_work.Bitmap.{get_free_block_num, set_block_bitmap}
use kw_home_work.Inode.{Inode, get_inode, put_inode}
use kw_home_work.Fs.{
  Step, ◌>>=◌, ◌>>◌, give, defined, act, number, stored, Mounted, File, add32, sub32, ptrs, set_ptr,
  change_info, file_of, advance, num_of_direct_block_ptr,
}

-- `memcpy` from `pBuffer + offset`: `buffer` is the memory from `pBuffer` on, and to read past it is
-- a fault.
unfoldable pub memory : {S : Type 0} → ℕ → ℕ → List ℕ → Step S (List ℕ)
unfolding slice
memory offset n buffer =
    if leb (offset + n) (length buffer) then give (slice offset n buffer) else (λ _. none)

module _ (store : BlockStore) where
  open store use {State, buf_read, buf_write}

  -- One pointer of the loop of `WriteFile`: a new block where it is 0. The numbers are the block and
  -- `needBlockCount`.
  unfoldable pub alloc_ptr : ℕ → Inode → ℕ → Step State (Inode × ℕ × ℕ)
  alloc_ptr i inode need =
      let cur = get_or (ptrs inode) i 0 in
      let fresh = do
        free ← get_free_block_num store
        b ← defined free
        act (set_block_bitmap store b)
        give (
          set_ptr i b (record inode {
            alloc_blocks = add32 inode.alloc_blocks 1;
            size = add32 inode.size block_size;
          }),
          b,
          need + 1,
        )
      in let old = do b ← number cur; give (inode, b, need)
        in if cur == 0 then fresh else old

  -- The loop, with the rounds left.
  unfoldable pub write_loop : ℕ → ℕ → List ℕ → Inode → ℕ → Step State (Inode × ℕ)
  unfolding alloc_ptr memory
  write_loop zero i buffer inode need = give (inode, need)
  write_loop (suc n) i buffer inode need = do
    (inode1, b, need1) ← alloc_ptr i inode need
    data1 ← memory (block_size * i) block_size buffer
    act (buf_write b data1)
    write_loop n (i + 1) buffer inode1 need1

  -- `WriteFile` after its check.
  unfoldable pub write_blocks :
      ℕ → File → (total cur_idx : ℕ) → List ℕ → Inode → Step (Mounted State) (Option ℕ)
  unfolding write_loop
  write_blocks fd file total cur_idx buffer inode = do
    (inode1, need) ← stored (write_loop total cur_idx buffer inode 0)
    n ← number file.inode_num
    stored (act (put_inode store n inode1))
    change_info store (λ i. record i {
      num_alloc_blocks = add32 i.num_alloc_blocks need;
      num_free_blocks = sub32 i.num_free_blocks need;
    })
    advance fd (block_size * total) file
    give (some (block_size * total))

  -- `none` is the -1 of a write past the fifth block.
  unfoldable pub write_file : ℕ → List ℕ → ℕ → Step (Mounted State) (Option ℕ)
  unfolding write_blocks
  write_file fd buffer len = do
    file ← file_of fd
    n ← number file.inode_num
    inode ← stored (get_inode store n)
    let total = (len - 1) / block_size + 1
    let cur_idx = file.file_offset / block_size
    if ltb num_of_direct_block_ptr (cur_idx + total)
        then give none
        else write_blocks fd file total cur_idx buffer inode

  -- The bytes that `memcpy` puts into `pBuffer`, and the result.
  unfoldable pub read_file : ℕ → ℕ → Step (Mounted State) (List ℕ × ℕ)
  unfolding memory
  read_file fd len = do
    file ← file_of fd
    n ← number file.inode_num
    inode ← stored (get_inode store n)
    p ← defined (get_elem? (ptrs inode) (file.file_offset / block_size))
    b ← number p
    data1 ← stored (buf_read b)
    advance fd block_size file
    bytes ← memory 0 len data1
    give (bytes, block_size)
