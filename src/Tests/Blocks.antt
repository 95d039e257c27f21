-- ===== src/Tests/Blocks.antt =====
-- The bitmaps and the inode list of OS/hw3/fs_internal.c over the buffer cache on a formatted disk,
-- and the theorems about them there.
use kw_home_work.Common.{
  ℕ, ◌<◌, ◌≡◌, true, false, some, [], arith, length, length-replicate, ◌∙◌, get_or-replicate,
}
use kw_home_work.Disk.{Disk, content, block_size, zero_block}
use kw_home_work.Cache.{BufState, Cache, buf_init}
use kw_home_work.Cache.Valid.{IsValid}
use kw_home_work.Cache.Init.{buf_init-IsValid}
use kw_home_work.Cache.View.{view}
use kw_home_work.Store.{BlockStore}
use kw_home_work.Store.Cached.{cached_store}
use kw_home_work.Bitmap.{
  set_block_bitmap, reset_block_bitmap, set_inode_bitmap, reset_inode_bitmap, get_free_block_num,
  get_free_inode_num, block_bitmap_block_num, inode_bitmap_block_num,
}
use kw_home_work.Bitmap.Search.{IsBytes}
use kw_home_work.Bitmap.Stored.{
  Holds, Marked, Searched, block_bitmap-Marked, inode_bitmap-Marked, get_free_block_num-Searched,
  get_free_inode_num-Searched,
}
use kw_home_work.Inode.{Inode, put_inode}
use kw_home_work.Inode.Stored.{Listed, Put, put_inode-Put, block_of}

-- A disk of 512 blocks of zeros, as after a format.
abbrev disk : Disk
disk = record { size = 512; blocks = λ b. zero_block; disk_read_count = 0; disk_write_count = 0 }

abbrev raw : Cache
raw = record {
  disk = disk;
  bufs = λ _. record { blkno = 0; state = BufState.clean; mem = [] };
  buf_list = λ _. [];
  clean_list = [];
  dirty_list = [];
  free_list = [];
  lru_list = [];
}

abbrev pub store : BlockStore
store = cached_store []

abbrev pub start : Cache
start = buf_init raw

pub start-IsValid : IsValid start × ((b : ℕ) → view b start ≡ content disk b)
start-IsValid = buf_init-IsValid raw

content_zero : (b : ℕ) → b < 512 → content disk b ≡ some zero_block
unfolding content
content_zero b h = ground arith

pub stored_zero : (b : ℕ) → b < 512 → view b start ≡ some zero_block
stored_zero b h = start-IsValid.1 b ∙ content_zero b h

pub zero_block-IsBytes : IsBytes zero_block
unfolding zero_block
zero_block-IsBytes i = get_or-replicate block_size i

pub length-zero_block : length zero_block ≡ block_size
unfolding zero_block
length-zero_block = length-replicate {A = ℕ} block_size 0

holds : (b : ℕ) → b < 512 → Holds store b zero_block start
holds b h = record {
  valid = start-IsValid.0;
  stored = stored_zero b h;
  bytes = zero_block-IsBytes;
  size = length-zero_block;
}

get_free_block_num-Searched_example :
    Searched store block_bitmap_block_num 64 zero_block start (get_free_block_num store start)
get_free_block_num-Searched_example =
    get_free_block_num-Searched store zero_block start (holds block_bitmap_block_num (omega arith))

get_free_inode_num-Searched_example :
    Searched store inode_bitmap_block_num 8 zero_block start (get_free_inode_num store start)
get_free_inode_num-Searched_example =
    get_free_inode_num-Searched store zero_block start (holds inode_bitmap_block_num (omega arith))

block_bitmap-Marked_example :
    Marked store block_bitmap_block_num 9 true zero_block start (set_block_bitmap store 9 start)
    × Marked store block_bitmap_block_num 9 false zero_block start
        (reset_block_bitmap store 9 start)
block_bitmap-Marked_example =
    block_bitmap-Marked store 9 zero_block start (omega arith)
      (holds block_bitmap_block_num (omega arith))

inode_bitmap-Marked_example :
    Marked store inode_bitmap_block_num 9 true zero_block start (set_inode_bitmap store 9 start)
    × Marked store inode_bitmap_block_num 9 false zero_block start
        (reset_inode_bitmap store 9 start)
inode_bitmap-Marked_example =
    inode_bitmap-Marked store 9 zero_block start (omega arith)
      (holds inode_bitmap_block_num (omega arith))

pub listed : Listed store start
listed = record {
  valid = start-IsValid.0;
  stored = λ n h. (zero_block, stored_zero (block_of n) (omega arith), length-zero_block);
}

-- An inode of a file with two blocks.
abbrev pub file : Inode
file = record {
  alloc_blocks = 2;
  size = 1024;
  type = 0;
  ptr0 = 8;
  ptr1 = 300;
  ptr2 = 0;
  ptr3 = 0;
  ptr4 = 0;
}

put_inode-Put_example :
    (s : Cache) × (put_inode store 17 file start ≡ some s) × Put store 17 file start s
put_inode-Put_example = put_inode-Put store 17 file start (omega arith) (omega arith) listed

file_put : (s : Cache) × (put_inode store 17 file start ≡ some s) × Put store 17 file start s
file_put = put_inode-Put store 17 file start (omega arith) (omega arith) listed
