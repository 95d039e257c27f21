-- ===== src/Fs/Files.antt =====
-- `CreateFile`, `OpenFile`, `CloseFile` and `RemoveFile` of OS/hw3/fs.c. A result -1 is `none` or
-- `false`. `junk` is what `malloc` left in the buffer of the token: `CreateFile` and `RemoveFile` go
-- on with it where `getDirPos` fails.
pub mod Descriptors
pub mod Opening
pub mod Creation
pub mod Removal
pub mod Deletion
use kw_home_work.Common.{
  ℕ, zero, suc, ◌+◌, Bool, true, false, Option, none, some, List, [], ◌∷◌, ◌==◌, if◌then◌else◌,
  get_elem?, set,
}
use kw_home_work.Store.{BlockStore}
use kw_home_work.Bitmap.{
  get_free_inode_num, set_inode_bitmap, reset_inode_bitmap, reset_block_bitmap,
}
use kw_home_work.Inode.{Inode, get_inode, put_inode}
use kw_home_work.Fs.{
  Step, ◌>>=◌, ◌>>◌, give, defined, act, number, stored, Mounted, FileDesc, FilePtr, add32, sub32,
  ptrs, with_ptrs, change_info, new_fd, file_type_file,
}
use kw_home_work.Fs.Entry.{is_vacant, is_named, set_entry, clear_entry, entry_inode}
use kw_home_work.Fs.Walk.{Hit, get_dir_pos, scan_inode}

module _ (store : BlockStore) where
  open store use {State, buf_write}

  -- `CreateFile` once a vacant entry is found.
  unfoldable pub fill_entry : List ℕ → Option ℕ → Hit → Step (Mounted State) (Option ℕ)
  fill_entry token inode_no h = do
    n ← defined inode_no
    stored (act (buf_write h.blkno (set_entry h.idx token n h.entries)))
    inode ← stored (get_inode store n)
    stored (
        act
          (put_inode store n (record inode { type = file_type_file; size = 0; alloc_blocks = 0 })))
    stored (act (set_inode_bitmap store n))
    change_info store (λ i. record i { num_alloc_inodes = add32 i.num_alloc_inodes 1 })
    new_fd n

  unfoldable pub create_file : List ℕ → List ℕ → Step (Mounted State) (Option ℕ)
  unfolding fill_entry
  create_file junk name = do
    inode_no ← stored (get_free_inode_num store)
    pos ← stored (get_dir_pos store junk name)
    hit ← stored (scan_inode store is_vacant pos.inode_no)
    elim hit [ none ↦ give none | some h ↦ fill_entry pos.token inode_no h ]

  unfoldable pub open_file : List ℕ → List ℕ → Step (Mounted State) (Option ℕ)
  open_file junk name = do
    pos ← stored (get_dir_pos store junk name)
    elim pos.found [
      | false ↦ give none
      | true ↦ do
        hit ← stored (scan_inode store (is_named pos.token) pos.inode_no)
        elim hit [ none ↦ give none | some h ↦ new_fd (entry_inode h.entries h.idx) ]
    ]

  -- The loop that frees the blocks of an inode; the pointers become 0.
  unfoldable pub free_blocks : List ℕ → Step State (Unit {0})
  free_blocks [] = give tt
  free_blocks (p ∷ ps) =
      let rest = free_blocks ps in
      let here = do b ← number p; act (reset_block_bitmap store b); rest
      in if p == 0 then rest else here

  -- The end of `RemoveFile` and `RemoveDir`: the inode `n` as read before, without its blocks. The
  -- counters are changed by `allocBlocks` after it has been set to 0.
  unfoldable pub free_inode : ℕ → Inode → Step (Mounted State) (Unit {0})
  unfolding free_blocks
  free_inode n inode =
      let bare : Inode =
        with_ptrs (0 ∷ 0 ∷ 0 ∷ 0 ∷ 0 ∷ []) (record inode { alloc_blocks = 0; size = 0 }) in
      do
        stored (free_blocks (ptrs inode))
        stored (act (put_inode store n bare))
        stored (act (reset_inode_bitmap store n))
        change_info store (λ i. record i {
          num_alloc_inodes = sub32 i.num_alloc_inodes 1;
          num_alloc_blocks = sub32 i.num_alloc_blocks bare.alloc_blocks;
          num_free_blocks = add32 i.num_free_blocks bare.alloc_blocks;
        })

  unfoldable pub remove_file : List ℕ → List ℕ → Step (Mounted State) Bool
  unfolding free_inode
  remove_file junk name = do
    pos ← stored (get_dir_pos store junk name)
    hit ← stored (scan_inode store (is_named pos.token) pos.inode_no)
    elim hit [
      | none ↦ give false
      | some h ↦ do
        stored (act (buf_write h.blkno (clear_entry h.idx h.entries)))
        n ← number (entry_inode h.entries h.idx)
        inode ← stored (get_inode store n)
        free_inode n inode
        give true
    ]

-- `free` of a pointer that has been freed is a fault; of the null pointer it does nothing. The code
-- returns no value.
unfoldable pub close_file : {State : Type 0} → ℕ → Step (Mounted State) (Unit {0})
close_file {State} fd fs = elim (get_elem? fs.file_desc fd) [
  | none ↦ none
  | some d ↦
      let closed : FilePtr → Mounted State = λ p. record fs {
        file_desc = set fs.file_desc fd (record { used = false; open_file = p });
      } in
      elim d.open_file [
        | FilePtr.null ↦ some (tt, closed FilePtr.null)
        | FilePtr.freed ↦ none
        | FilePtr.opened file ↦ some (tt, closed FilePtr.freed)
      ]
]
