-- ===== src/Fs/Files/Deletion.antt =====
-- `RemoveFile` of OS/hw3/fs.c, where the path leads to an entry.
use kw_home_work.Common.{
  ℕ, ◌^◌, ◌<◌, ◌≤◌, ◌≡◌, ◌≢◌, refl, ap, sym, ◌∙◌, true, ◌||◌, some, List, [], arith, ◌==◌,
  if◌then◌else◌, length,
}
use kw_home_work.Disk.{Block, block_size}
use kw_home_work.Store.{BlockStore}
use kw_home_work.Bitmap.{inode_bitmap_block_num, block_bitmap_block_num}
use kw_home_work.Bitmap.Search.{is_free}
use kw_home_work.Bitmap.Stored.{Holds}
use kw_home_work.Inode.{Inode, get_inode}
use kw_home_work.Inode.Layout.{Fits}
use kw_home_work.Inode.Stored.{IsInode, Listed, num_of_inodes, block_of, get_inode-IsInode}
use kw_home_work.Fs.{◌>>=◌, ptrs, Mounted}
use kw_home_work.Fs.Entry.{entry_inode, is_named, clear_entry, num_of_dirent_per_block}
use kw_home_work.Fs.Entry.Layout.{Stores, entry-Stores}
use kw_home_work.Fs.Walk.{Hit, DirPos, get_dir_pos, scan_inode}
use kw_home_work.Fs.Walk.Search.{Same, Reaches, reached}
use kw_home_work.Fs.Walk.Paths.{IsDir, Position, get_dir_pos_from, scan_inode-Searched}
use kw_home_work.Fs.Files.{free_inode, remove_file}
use kw_home_work.Fs.Files.Removal.{AreBlocks, bare, is_pointer, removed_info, free_inode-Removed}
use kw_home_work.Fs.Transfer.Alloc.{data_region_block}
use kw_home_work.Fs.Transfer.Reads.{number_lem}

module _ (store : BlockStore) where
  open store use {State, IsValid, block, buf_write, write_law}

  -- The entry with the index `idx` in the block `blkno`, which held `before`, is cleared, and the rest
  -- is as `Removed` says.
  pub record Deleted (n : ℕ) (old : Inode) (blkno idx : ℕ) (before d ib : Block) (s s' : State)
      : Type 0 where
    pub entries : Block
    pub entries_stored : block blkno s' ≡ some entries
    pub cleared : Stores idx [] 0 before entries
    pub listed : Listed store s'
    pub inode_stored : IsInode store n (bare old) s'
    pub bitmap : Block
    pub bitmap_holds : Holds store block_bitmap_block_num bitmap s'
    pub free : (j : ℕ) → is_free j bitmap ≡ (is_pointer j (ptrs old) || is_free j d)
    pub inode_bitmap : Block
    pub inode_bitmap_holds : Holds store inode_bitmap_block_num inode_bitmap s'
    pub inode_free : (j : ℕ) → is_free j inode_bitmap ≡ (if n == j then true else is_free j ib)
    pub inodes :
        (m : ℕ) (j : Inode) → m < num_of_inodes → m ≢ n → IsInode store m j s → IsInode store m j s'
    pub others :
        (x : ℕ) (y : Block)
        → data_region_block ≤ x
        → x ≢ blkno
        → block x s ≡ some y
        → block x s' ≡ some y

  Deleted-at :
      (n : ℕ) (old : Inode) (d ib : Block) (s s' : State) (b b' i i' : ℕ) (e e' : Block)
      → b ≡ b'
      → i ≡ i'
      → e ≡ e'
      → Deleted n old b' i' e' d ib s s'
      → Deleted n old b i e d ib s s'
  Deleted-at n old d ib s s' b b' i i' e e' same_b same_i same_e del =
      rw (same_b, same_i, same_e) del

  remove_run :
      (junk path : List ℕ) (pos : DirPos) (h : Hit) (n : ℕ) (old : Inode) (fs : Mounted State)
      (s1 s2 s3 s4 : State) (fs5 : Mounted State)
      → get_dir_pos store junk path fs.store ≡ some (pos, s1)
      → scan_inode store (is_named pos.token) pos.inode_no s1 ≡ some (some h, s2)
      → buf_write h.blkno (clear_entry h.idx h.entries) s2 ≡ some s3
      → entry_inode h.entries h.idx ≡ n
      → n < 2 ^ 31
      → get_inode store n s3 ≡ some (old, s4)
      → free_inode store n old (record fs { store = s4 }) ≡ some (tt, fs5)
      → remove_file store junk path fs ≡ some (true, fs5)
  unfolding remove_file
  remove_run junk path pos h n old fs s1 s2 s3 s4 fs5 walked found wrote is_n small got freed =
      rw
        (
          walked,
          ◌>>=◌,
          found,
          wrote,
          is_n,
          number_lem {S = Mounted State} n (record fs { store = s3 }) small,
          got,
          freed,
          remove_file,
        )
        refl

  -- The same with the entry that the search returns.
  module _ (junk path : List ℕ) (pos : DirPos) (h : Hit) (n : ℕ) (old : Inode) (d ib : Block)
      (fs : Mounted State) (s1 s2 : State) where
    delete_hit :
        get_dir_pos store junk path fs.store ≡ some (pos, s1)
        → scan_inode store (is_named pos.token) pos.inode_no s1 ≡ some (some h, s2)
        → IsValid s2
        → Same store fs.store s2
        → entry_inode h.entries h.idx ≡ n
        → data_region_block ≤ h.blkno
        → h.idx < num_of_dirent_per_block
        → length h.entries ≡ block_size
        → n < num_of_inodes
        → IsInode store n old fs.store
        → Fits old
        → AreBlocks (ptrs old)
        → Listed store fs.store
        → Holds store block_bitmap_block_num d fs.store
        → Holds store inode_bitmap_block_num ib fs.store
        → (s' : State) × (remove_file store junk path fs
            ≡ some (true, record fs { store = s'; info = removed_info fs.info }))
          × Deleted n old h.blkno h.idx h.entries d ib fs.store s'
    delete_hit walked found v2 k2 is_n from in_block whole lt (d0, at0, e0) fits blocks l holds
          ib_holds =
        let entries = clear_entry h.idx h.entries in
        let (s3, wrote, v3, new, rest) = write_law s2 h.blkno entries v2 in
        let k3 : (x : ℕ) (y : Block)
            → x ≢ h.blkno
            → block x fs.store ≡ some y
            → block x s3 ≡ some y =
          λ x y ne e. rest x y ne (k2 x y e) in
        let (s4, got, v4, k4) =
          get_inode-IsInode store n old s3 lt v3
            (d0, k3 (block_of n) d0 (omega (arith, from)) at0, e0) in
        let k5 : (x : ℕ) (y : Block)
            → x ≢ h.blkno
            → block x fs.store ≡ some y
            → block x s4 ≡ some y =
          λ x y ne e. k4 x y (k3 x y ne e) in
        let l4 : Listed store s4 = record {
          valid = v4;
          stored = λ m h1.
              let (d1, at, size) = l.stored m h1 in
              (d1, k5 (block_of m) d1 (omega (arith, from)) at, size);
        } in
        let holds4 : Holds store block_bitmap_block_num d s4 = record {
          valid = v4;
          stored = k5 2 d (omega (arith, from)) holds.stored;
          bytes = holds.bytes;
          size = holds.size;
        } in
        let ib4 : Holds store inode_bitmap_block_num ib s4 = record {
          valid = v4;
          stored = k5 1 ib (omega (arith, from)) ib_holds.stored;
          bytes = ib_holds.bytes;
          size = ib_holds.size;
        } in
        let (s5, freed, r) =
          free_inode-Removed store n old d ib (record fs { store = s4 }) lt fits blocks l4 holds4
            ib4 in
        (
          s5,
          remove_run junk path pos h n old fs s1 s2 s3 s4
              (record fs { store = s5; info = removed_info fs.info }) walked found wrote is_n
              (omega arith) got freed,
          record {
            entries = entries;
            entries_stored = r.others h.blkno entries from (k4 h.blkno entries new);
            cleared =
                (entry-Stores h.idx h.entries in_block whole [] 0 tt (omega arith) (omega arith)).1;
            listed = r.listed;
            inode_stored = r.inode_stored;
            bitmap = r.bitmap;
            bitmap_holds = r.bitmap_holds;
            free = r.free;
            inode_bitmap = r.inode_bitmap;
            inode_bitmap_holds = r.inode_bitmap_holds;
            inode_free = r.inode_free;
            inodes = λ m j h1 ne (d1, at, e).
                r.inodes m j h1 ne (d1, k5 (block_of m) d1 (omega (arith, from)) at, e);
            others = λ x y above ne e. r.others x y above (k5 x y ne e);
          },
        )

  module _ (junk path : List ℕ) (pos : DirPos) (parent : Inode) (m : ℕ) (h : Hit) (n : ℕ)
      (old : Inode) (d ib : Block) (fs : Mounted State) where
    -- `RemoveFile` of a path that leads to the entry of the inode n in a whole block of the data region,
    -- where the inode fits and its pointers are 0 or numbers of the block bitmap, over a whole inode
    -- list and two whole bitmaps: it returns 1. The entry is cleared, the blocks behind the inode's
    -- pointers become free and no others, the inode becomes free and keeps only its type. Every other
    -- inode and block of the data region is as before, and so is every other inode number in the
    -- entry's block, and every other name there that ends within its field.
    pub remove_file-Deleted :
        Position store fs.store junk path pos
        → IsDir store pos.inode_no parent fs.store
        → Reaches store (is_named pos.token) (ptrs parent) m fs.store h
        → entry_inode h.entries h.idx ≡ n
        → data_region_block ≤ h.blkno
        → h.idx < num_of_dirent_per_block
        → length h.entries ≡ block_size
        → n < num_of_inodes
        → IsInode store n old fs.store
        → Fits old
        → AreBlocks (ptrs old)
        → Listed store fs.store
        → Holds store block_bitmap_block_num d fs.store
        → Holds store inode_bitmap_block_num ib fs.store
        → (s' : State) × (remove_file store junk path fs
            ≡ some (true, record fs { store = s'; info = removed_info fs.info }))
          × Deleted n old h.blkno h.idx h.entries d ib fs.store s'
    remove_file-Deleted p dir r is_n from in_block whole lt at_inode fits blocks l holds ib_holds =
        let (s1, walked, v1, k1) =
          get_dir_pos_from store junk path pos fs.store fs.store l.valid (λ x y e. e) p in
        let found =
          scan_inode-Searched store (is_named pos.token) pos.inode_no parent fs.store s1 dir v1
            k1 in
        let (h', is_hit, same_entries, same_idx, same_blkno) =
          reached store (is_named pos.token) fs.store (ptrs parent) found.result found.right h
            (m, r) in
        let is_n' : entry_inode h'.entries h'.idx ≡ n = rw (sym same_entries, sym same_idx) is_n in
        let (s', ran, del) =
          delete_hit junk path pos h' n old d ib fs s1 found.after walked
            (found.ran ∙ ap (λ o. some (o, found.after)) is_hit) found.valid found.same is_n'
            (omega (arith, same_blkno, from)) (omega (arith, same_idx, in_block))
            (rw (sym same_entries) whole) lt at_inode fits blocks l holds ib_holds in
        (
          s',
          ran,
          Deleted-at n old d ib fs.store s' h.blkno h'.blkno h.idx h'.idx h.entries h'.entries
              same_blkno same_idx same_entries del,
        )
