-- ===== src/Fs/Format.antt =====
-- `CreateFileSystem`, `OpenFileSystem`, `CloseFileSystem`, `Sync` and `setRoot` of OS/hw3/fs.c.
pub mod Loops
pub mod Clear
pub mod Root
use kw_home_work.Common.{ℕ, zero, suc, ◌+◌, [], ◌∷◌, take, drop, get_or}
use kw_home_work.Disk.{Block, Disk, dev_create_disk, dev_reset_disk_access_count, block_size}
use kw_home_work.Cache.{Cache, buf_init, buf_sync}
use kw_home_work.Bytes.Words.{ints_of}
use kw_home_work.Store.{BlockStore}
use kw_home_work.Store.Cached.{cached_store}
use kw_home_work.Bitmap.{
  get_free_inode_num, get_free_block_num, set_inode_bitmap, set_block_bitmap, reset_block_bitmap,
  block_bitmap_block_num, inode_bitmap_block_num,
}
use kw_home_work.Inode.{get_inode, put_inode}
use kw_home_work.Fs.{
  Step, ◌>>=◌, ◌>>◌, give, defined, act, stored, Mounted, FileSysInfo, add32, sub32, with_ptrs,
  change_info, file_type_dir, filesys_info_block,
}
use kw_home_work.Fs.Entry.{put_entry}

-- What a block read into `pFileSysInfo` makes of it.
unfoldable pub info_of : Block → FileSysInfo
info_of b =
    let ws = ints_of (take 40 b) in
    record {
      blocks = get_or ws 0 0;
      root_inode_num = get_or ws 1 0;
      disk_capacity = get_or ws 2 0;
      num_alloc_blocks = get_or ws 3 0;
      num_free_blocks = get_or ws 4 0;
      num_alloc_inodes = get_or ws 5 0;
      block_bitmap_block = get_or ws 6 0;
      inode_bitmap_block = get_or ws 7 0;
      inode_list_block = get_or ws 8 0;
      data_region_block = get_or ws 9 0;
      behind = drop 40 b;
    }

module _ (store : BlockStore) where
  open store use {State, buf_read, buf_write}

  -- A counted loop: the rounds left, and the counter.
  unfoldable pub each : ℕ → ℕ → (ℕ → Step State (Unit {0})) → Step State (Unit {0})
  each zero i f = give tt
  each (suc n) i f = do f i; each n (i + 1) f

  -- `InitFileSys`: `junk` has what `malloc` left for each block.
  unfoldable pub init_file_sys : (ℕ → Block) → Step State (Unit {0})
  unfolding each
  init_file_sys junk = each 512 0 (λ i. act (buf_write i (junk i)))

  -- `setRoot`: `info` and `junk` are what `malloc` left.
  unfoldable pub set_root : FileSysInfo → Block → Step (Mounted State) (Unit {0})
  set_root info junk = do
    free ← stored (get_free_block_num store)
    free_inode ← stored (get_free_inode_num store)
    b ← defined free
    n ← defined free_inode
    stored (act (buf_write b (put_entry 0 (46 ∷ 0 ∷ []) n junk)))
    change_info store (λ _. record info {
      num_alloc_blocks = add32 info.num_alloc_blocks 1;
      num_free_blocks = sub32 info.num_free_blocks 1;
      num_alloc_inodes = add32 info.num_alloc_inodes 1;
    })
    root ← stored (get_inode store 0)
    stored (
        act (
          put_inode store 0 (
            with_ptrs (b ∷ 0 ∷ 0 ∷ 0 ∷ 0 ∷ [])
              (record root { type = file_type_dir; size = block_size; alloc_blocks = 1 }))))
    stored (act (set_block_bitmap store b))
    stored (act (set_inode_bitmap store n))

  -- `CreateFileSystem` after `DevResetDiskAccessCount`. The two loops that clear `pData` change no
  -- block.
  unfoldable pub format : (ℕ → Block) → FileSysInfo → Block → Step (Mounted State) (Unit {0})
  unfolding each init_file_sys set_root
  format junks info junk = do
    stored (init_file_sys junks)
    block_bitmap ← stored (buf_read block_bitmap_block_num)
    inode_bitmap ← stored (buf_read inode_bitmap_block_num)
    stored (each 7 0 (λ i. act (set_block_bitmap store i)))
    stored (each 505 7 (λ i. act (reset_block_bitmap store i)))
    set_root info junk

  -- `OpenFileSystem` after `DevResetDiskAccessCount`.
  unfoldable pub mount : Step (Mounted State) (Unit {0})
  unfolding each
  mount fs =
      (do
        stored (each 512 0 (λ i. do block ← buf_read i; give tt))
        block ← stored (buf_read filesys_info_block)
        λ fs1.
            stored (each 6 0 (λ i. act (set_block_bitmap store i)))
              (record fs1 { info = info_of block }))
        fs

-- `DevCreateDisk`, or `DevOpenDisk`, then `BufInit` and `DevResetDiskAccessCount`.
abbrev pub start : Disk → Cache → Cache
start d c =
    let c1 = buf_init (record c { disk = d }) in
    record c1 { disk = dev_reset_disk_access_count c1.disk }

module _ (heap : Block) where
  -- `heap` is what `malloc` leaves in the buffers of the cache.
  unfoldable pub create_file_system :
      (ℕ → Block) → FileSysInfo → Block → Step (Mounted Cache) (Unit {0})
  unfolding format
  create_file_system junks info junk fs =
      format (cached_store heap) junks info junk
        (record fs { store = start (dev_create_disk fs.store.disk) fs.store })

  unfoldable pub open_file_system : Disk → Step (Mounted Cache) (Unit {0})
  unfolding mount
  open_file_system disk fs = mount (cached_store heap) (record fs { store = start disk fs.store })

-- `CloseFileSystem` and `Sync`.
unfoldable pub sync : Step (Mounted Cache) (Unit {0})
sync fs = stored (act buf_sync) fs
