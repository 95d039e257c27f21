-- ===== src/Tests/Files.antt =====
-- Descriptors, reads and writes of OS/hw3/fs.c, over the buffer cache, on a file with two blocks.
use kw_home_work.Common.{
  ℕ, zero, suc, ◌<◌, ◌≡◌, inr, refl, true, false, some, List, [], ◌∷◌, arith, length-replicate,
  get_or-replicate, replicate, take,
}
use kw_home_work.Disk.{Block, zero_block}
use kw_home_work.Bytes.{slice}
use kw_home_work.Cache.{Cache}
use kw_home_work.Cache.Valid.{IsValid}
use kw_home_work.Cache.View.{view}
use kw_home_work.Bitmap.{is_bit_clear}
use kw_home_work.Bitmap.Search.{is_free, IsBytes}
use kw_home_work.Bitmap.Stored.{Others}
use kw_home_work.Inode.{put_inode}
use kw_home_work.Inode.Stored.{IsInode, Listed, Put, put_inode-Put, block_of}
use kw_home_work.Fs.{Mounted, File, FileDesc, FilePtr, FileSysInfo, new_fd}
use kw_home_work.Fs.Files.Descriptors.{OpenResult, new_fd-Opened}
use kw_home_work.Fs.Walk.Search.{Same}
use kw_home_work.Fs.Transfer.{read_file, write_file, alloc_ptr}
use kw_home_work.Fs.Transfer.Reads.{IsOpen, read_file-Read}
use kw_home_work.Fs.Transfer.Alloc.{HasFree, Allocated, alloc_ptr-Allocated}
use kw_home_work.Fs.Transfer.Writes.{Written, write_file-Written}
use kw_home_work.Tests.Blocks.{store, start, stored_zero, listed, file, length-zero_block}

abbrev pub info : FileSysInfo
info = record {
  blocks = 512;
  root_inode_num = 0;
  disk_capacity = 0;
  num_alloc_blocks = 3;
  num_free_blocks = 502;
  num_alloc_inodes = 2;
  block_bitmap_block = 2;
  inode_bitmap_block = 1;
  inode_list_block = 3;
  data_region_block = 7;
  behind = [];
}

abbrev opened : ℕ → File
opened o = record { file_offset = o; inode_num = 17 }

-- Descriptor 0 is open at the third block of inode 17, and 1 is not in use.
abbrev table : List FileDesc
table =
    record { used = true; open_file = FilePtr.opened (opened 1024) }
    ∷ record { used = false; open_file = FilePtr.null }
    ∷ []

-- The file of two blocks is stored, and then a block bitmap with the first seven blocks taken.
stored_file : (s : Cache) × (put_inode store 17 file start ≡ some s) × Put store 17 file start s
stored_file = put_inode-Put store 17 file start (omega arith) (omega arith) listed

abbrev bitmap : Block
bitmap = 254 ∷ replicate 511 0

files : Cache
files = (store.write_law stored_file.0 2 bitmap stored_file.2.listed.valid).0

files-IsValid : IsValid files
unfolding files
files-IsValid = (store.write_law stored_file.0 2 bitmap stored_file.2.listed.valid).2

bitmap_stored : view 2 files ≡ some bitmap
unfolding files
bitmap_stored = (store.write_law stored_file.0 2 bitmap stored_file.2.listed.valid).3

files-Others : Others store 2 stored_file.0 files
unfolding files
files-Others = (store.write_law stored_file.0 2 bitmap stored_file.2.listed.valid).4

files_listed : Listed store files
files_listed = record {
  valid = files-IsValid;
  stored = λ n h.
      let (d, at, size) = stored_file.2.listed.stored n h in
      (d, files-Others (block_of n) d (omega arith) at, size);
}

file_stored : IsInode store 17 file files
file_stored = let (d, at, e) = stored_file.2.stored in (d, files-Others 4 d (omega arith) at, e)

abbrev mounted : Mounted Cache
mounted = record { store = files; info = info; file_desc = table }

new_fd-Opened_example : OpenResult 17 mounted (new_fd 17 mounted)
new_fd-Opened_example = new_fd-Opened 17 mounted

bitmap-IsBytes : IsBytes bitmap
bitmap-IsBytes zero = omega arith
bitmap-IsBytes (suc i) = get_or-replicate 511 i

bitmap-HasFree : HasFree store bitmap files
unfolding is_bit_clear
bitmap-HasFree = record {
  holds = record {
    valid = files-IsValid;
    stored = bitmap_stored;
    bytes = bitmap-IsBytes;
    size = refl;
  };
  reserved = reserved;
  free = 7;
  in_range = omega arith;
  is_free_there = refl;
}
  where
    reserved : (j : ℕ) → j < 7 → is_free j bitmap ≡ false
    reserved zero h = refl
    reserved (suc zero) h = refl
    reserved (suc (suc zero)) h = refl
    reserved (suc (suc (suc zero))) h = refl
    reserved (suc (suc (suc (suc zero)))) h = refl
    reserved (suc (suc (suc (suc (suc zero))))) h = refl
    reserved (suc (suc (suc (suc (suc (suc zero)))))) h = refl
    reserved (suc (suc (suc (suc (suc (suc (suc j))))))) h = absurd (omega arith)

alloc_ptr-Allocated_example : Allocated store 2 file files (alloc_ptr store 2 file 0 files)
alloc_ptr-Allocated_example =
    alloc_ptr-Allocated store 2 file files (omega arith) (omega arith) files_listed
      (inr (refl, (bitmap, bitmap-HasFree)))

-- Three blocks of the letter A.
abbrev buffer : List ℕ
buffer = replicate 1536 65

write_file-Written_example :
    (fs : Mounted Cache) × (write_file store 0 buffer 100 mounted ≡ some (some 512, fs))
    × Written store 17 2 file (slice 1024 512 buffer) mounted fs
    × IsOpen 0 (opened 1536) fs
write_file-Written_example =
    write_file-Written store 0 100 2 (opened 1024) file buffer mounted
      (record { used = true; open_file = FilePtr.opened (opened 1024) }, refl, refl) files_listed
      (omega arith) file_stored (omega arith) refl (omega arith) (omega arith)
      (omega (arith, length-replicate {A = ℕ} 1536 65)) (inr (refl, (bitmap, bitmap-HasFree)))

-- Descriptor 0 at the start of the file.
abbrev rewound : Mounted Cache
rewound = record mounted {
  file_desc = record { used = true; open_file = FilePtr.opened (opened 0) } ∷ [];
}

read_file-Read_example :
    (fs : Mounted Cache) × (read_file store 0 10 rewound ≡ some ((take 10 zero_block, 512), fs))
    × IsValid fs.store
    × Same store files fs.store
    × IsOpen 0 (opened 512) fs
read_file-Read_example =
    read_file-Read store 0 10 0 8 (opened 0) file zero_block rewound
      (record { used = true; open_file = FilePtr.opened (opened 0) }, refl, refl) files-IsValid
      (omega arith) file_stored refl refl (omega arith)
      (files-Others 8 zero_block (omega arith)
        (stored_file.2.others 8 zero_block (omega arith) (stored_zero 8 (omega arith))))
      (omega (arith, length-zero_block))
