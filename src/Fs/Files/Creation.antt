-- ===== src/Fs/Files/Creation.antt =====
-- `CreateFile` of OS/hw3/fs.c, where it has a vacant entry and a free inode.
use mathlib.Core.Path.{subst}
use kw_home_work.Common.{
  ℕ, ◌<◌, ◌≤◌, ◌≡◌, ◌≢◌, refl, ap, sym, ◌∙◌, false, some, List, arith, ◌==◌, if◌then◌else◌, length,
}
use kw_home_work.Disk.{Block, block_size}
use kw_home_work.Store.{BlockStore}
use kw_home_work.Bitmap.{get_free_inode_num, inode_bitmap_block_num}
use kw_home_work.Bitmap.Search.{is_free, Lowest, Lowest-unique}
use kw_home_work.Bitmap.Stored.{Holds, get_free_inode_num-Searched, inode_bitmap-Marked}
use kw_home_work.Inode.{Inode}
use kw_home_work.Inode.Layout.{Fits}
use kw_home_work.Inode.Stored.{
  IsInode, Listed, num_of_inodes, block_of, get_inode-IsInode, put_inode-Put,
}
use kw_home_work.Fs.{
  ◌>>=◌, ptrs, Mounted, FileSysInfo, info_bytes, new_fd, add32, file_type_file, filesys_info_block,
}
use kw_home_work.Fs.Entry.{is_vacant, set_entry, max_name_len, num_of_dirent_per_block}
use kw_home_work.Fs.Entry.Layout.{HasNoZero, Stores, entry-Stores}
use kw_home_work.Fs.Walk.{Hit, DirPos, get_dir_pos, scan_inode}
use kw_home_work.Fs.Walk.Search.{Same, Reaches, reached}
use kw_home_work.Fs.Walk.Paths.{IsDir, Position, get_dir_pos_from, scan_inode-Searched}
use kw_home_work.Fs.Files.{fill_entry, create_file}
use kw_home_work.Fs.Files.Descriptors.{OpenResult, new_fd-Opened}
use kw_home_work.Fs.Transfer.Alloc.{data_region_block}
use kw_home_work.Fs.Transfer.Writes.{change_info_lem}

abbrev pub one_more_inode : FileSysInfo → FileSysInfo
one_more_inode i = record i { num_alloc_inodes = add32 i.num_alloc_inodes 1 }

-- The inode of a new file: the pointers stay as they were.
abbrev pub emptied : Inode → Inode
emptied i = record i { type = file_type_file; size = 0; alloc_blocks = 0 }

emptied-Fits : (i : Inode) → Fits i → Fits (emptied i)
emptied-Fits i h = omega arith

module _ (store : BlockStore) where
  open store use {State, IsValid, block, buf_write, write_law}

  -- The state after the inode `n` has got the entry under the name, before the descriptor. The entry
  -- has the index `idx` in the block `blkno`, which held `before`.
  pub record Created (n : ℕ) (old : Inode) (name : List ℕ) (blkno idx : ℕ) (before ib : Block)
      (s s' : State) : Type 0 where
    pub listed : Listed store s'
    pub entries : Block
    pub entries_stored : block blkno s' ≡ some entries
    pub named : Stores idx name n before entries
    pub inode_stored : IsInode store n (emptied old) s'
    pub bitmap : Block
    pub bitmap_holds : Holds store inode_bitmap_block_num bitmap s'
    pub taken : (j : ℕ) → is_free j bitmap ≡ (if n == j then false else is_free j ib)
    pub inodes :
        (m : ℕ) (j : Inode) → m < num_of_inodes → m ≢ n → IsInode store m j s → IsInode store m j s'
    pub others :
        (x : ℕ) (y : Block)
        → data_region_block ≤ x
        → x ≢ blkno
        → block x s ≡ some y
        → block x s' ≡ some y

  module _ (n : ℕ) (old : Inode) (name : List ℕ) (h : Hit) (ib : Block) (fs : Mounted State)
      (in_list : n < num_of_inodes) (fits : Fits old) (listed : Listed store fs.store)
      (at_inode : IsInode store n old fs.store)
      (holds : Holds store inode_bitmap_block_num ib fs.store)
      (in_data : data_region_block ≤ h.blkno) (in_block : h.idx < num_of_dirent_per_block)
      (whole : length h.entries ≡ block_size) (chars : HasNoZero name)
      (short : length name < max_name_len) where
    fill_entry-Created :
        (s' : State) × (fill_entry store name (some n) h fs
          ≡ new_fd n (record fs { store = s'; info = one_more_inode fs.info }))
        × Created n old name h.blkno h.idx h.entries ib fs.store s'
    unfolding fill_entry
    fill_entry-Created =
        let entries = set_entry h.idx name n h.entries in
        let (s1, wrote, v1, new, rest1) = write_law fs.store h.blkno entries listed.valid in
        let l1 : Listed store s1 = record {
          valid = v1;
          stored = λ m lt.
              let (d, at, size) = listed.stored m lt in
              (d, rest1 (block_of m) d (omega (arith, in_data)) at, size);
        } in
        let (d0, at0, e0) = at_inode in
        let (s2, got, v2, k2) =
          get_inode-IsInode store n old s1 in_list v1
            (d0, rest1 (block_of n) d0 (omega (arith, in_data)) at0, e0) in
        let l2 : Listed store s2 = record {
          valid = v2;
          stored = λ m lt. let (d, at, size) = l1.stored m lt in (d, k2 (block_of m) d at, size);
        } in
        let (s3, put, p) =
          put_inode-Put store n (emptied old) s2 in_list (emptied-Fits old fits) l2 in
        let holds3 : Holds store inode_bitmap_block_num ib s3 = record {
          valid = p.listed.valid;
          stored =
              p.others 1 ib (omega arith)
                (k2 1 ib (rest1 1 ib (omega (arith, in_data)) holds.stored));
          bytes = holds.bytes;
          size = holds.size;
        } in
        let marked = (inode_bitmap-Marked store n ib s3 (omega arith) holds3).0 in
        let s4 = marked.after in
        let info = one_more_inode fs.info in
        let (s5, told, v5, _, rest5) =
          write_law s4 filesys_info_block (info_bytes info) marked.becomes.holds.valid in
        let later : (x : ℕ) (y : Block)
            → x ≢ 0
            → x ≢ 1
            → block x s3 ≡ some y
            → block x s5 ≡ some y =
          λ x y ne0 ne1 e. rest5 x y ne0 (marked.becomes.others x y ne1 e) in
        let named : Stores h.idx name n h.entries entries =
          (entry-Stores h.idx h.entries in_block whole name n chars short (omega arith)).0 in
        (
          s5,
          rw
              (
                wrote,
                ◌>>=◌,
                got,
                put,
                marked.ran,
                change_info_lem store one_more_inode (record fs { store = s4 }) s5 told,
                fill_entry,
              )
              refl,
          record {
            listed = record {
              valid = v5;
              stored = λ m lt.
                  let (d, at, size) = p.listed.stored m lt in
                  (d, later (block_of m) d (omega arith) (omega arith) at, size);
            };
            entries = entries;
            entries_stored =
                later h.blkno entries (omega (arith, in_data)) (omega (arith, in_data))
                  (p.others h.blkno entries (omega (arith, in_data)) (k2 h.blkno entries new));
            named = named;
            inode_stored =
                (let (d, at, e) = p.stored in
                  (d, later (block_of n) d (omega arith) (omega arith) at, e));
            bitmap = marked.bitmap;
            bitmap_holds = record {
              valid = v5;
              stored = rest5 1 marked.bitmap (omega arith) marked.becomes.holds.stored;
              bytes = marked.becomes.holds.bytes;
              size = marked.becomes.holds.size;
            };
            taken = marked.free;
            inodes = λ m j lt ne (d, at, e).
                let at2 = k2 (block_of m) d (rest1 (block_of m) d (omega (arith, in_data)) at) in
                let (d', at', e') = p.inodes m j ne (d, at2, e) in
                (d', later (block_of m) d' (omega arith) (omega arith) at', e');
            others = λ x y from ne e.
                later x y (omega arith) (omega arith)
                  (p.others x y (omega arith) (k2 x y (rest1 x y ne e)));
          },
        )

  Created-Same :
      {n : ℕ} {old : Inode} {name : List ℕ} {blkno idx : ℕ} {before ib : Block} {s0 s s' : State}
      → Same store s0 s
      → Created n old name blkno idx before ib s s'
      → Created n old name blkno idx before ib s0 s'
  Created-Same k c = record {
    listed = c.listed;
    entries = c.entries;
    entries_stored = c.entries_stored;
    named = c.named;
    inode_stored = c.inode_stored;
    bitmap = c.bitmap;
    bitmap_holds = c.bitmap_holds;
    taken = c.taken;
    inodes = λ m j lt ne (d, at, e). c.inodes m j lt ne (d, k _ d at, e);
    others = λ x y from ne e. c.others x y from ne (k x y e);
  }

  create_run :
      (junk path : List ℕ) (pos : DirPos) (n : ℕ) (h : Hit) (fs : Mounted State) (s1 s2 s3 : State)
      → get_free_inode_num store fs.store ≡ some (some n, s1)
      → get_dir_pos store junk path s1 ≡ some (pos, s2)
      → scan_inode store is_vacant pos.inode_no s2 ≡ some (some h, s3)
      → create_file store junk path fs
        ≡ fill_entry store pos.token (some n) h (record fs { store = s3 })
  unfolding create_file
  create_run junk path pos n h fs s1 s2 s3 free walked found =
      rw (free, ◌>>=◌, walked, found, create_file) refl

  module _ (junk path : List ℕ) (pos : DirPos) (parent : Inode) (m : ℕ) (h : Hit) (ib : Block)
      (n : ℕ) (old : Inode) (fs : Mounted State) where
    -- Over a whole inode list and a whole inode bitmap whose lowest free number is the inode n,
    -- whose fields fit, `CreateFile` of a path that leads to a stored directory, whose first vacant
    -- entry is in a whole block of the data region, by a name shorter than its field: the entry
    -- gets the name and n, the inode becomes a file of size 0 with no blocks counted and its
    -- pointers as they were, n and no other number is taken in the bitmap, and the inode is
    -- counted. All this is also done where every descriptor is in use, and the result then is -1;
    -- otherwise the result is the first unused descriptor, which reads n from its start, and no
    -- other changes. No other inode or block of the data region changes, and in the entry's block
    -- no other inode number, and no other name that ends within its field.
    pub create_file-Created :
        Listed store fs.store
        → Holds store inode_bitmap_block_num ib fs.store
        → Lowest 8 ib (some n)
        → IsInode store n old fs.store
        → Fits old
        → Position store fs.store junk path pos
        → IsDir store pos.inode_no parent fs.store
        → Reaches store is_vacant (ptrs parent) m fs.store h
        → data_region_block ≤ h.blkno
        → h.idx < num_of_dirent_per_block
        → length h.entries ≡ block_size
        → HasNoZero pos.token
        → length pos.token < max_name_len
        → (s' : State) × (create_file store junk path fs
            ≡ new_fd n (record fs { store = s'; info = one_more_inode fs.info }))
          × Created n old pos.token h.blkno h.idx h.entries ib fs.store s'
          × OpenResult n
              (record fs { store = s'; info = one_more_inode fs.info })
              (create_file store junk path fs)
    create_file-Created l holds lowest (d, at, e) fits p dir r in_data in_block whole chars short =
        let search = get_free_inode_num-Searched store ib fs.store holds in
        let is_n = Lowest-unique 8 ib n search.result search.lowest lowest in
        let lt : n < num_of_inodes = omega (arith, lowest.0) in
        let (s2, walked, v2, k2) =
          get_dir_pos_from store junk path pos fs.store search.after search.holds.valid search.same
            p in
        let found = scan_inode-Searched store is_vacant pos.inode_no parent fs.store s2 dir v2 k2 in
        let s3 = found.after in
        let (h', is_hit, same_entries, same_idx, same_blkno) =
          reached store is_vacant fs.store (ptrs parent) found.result found.right h (m, r) in
        let l3 : Listed store s3 = record {
          valid = found.valid;
          stored = λ j h1. let (d1, at1, size1) = l.stored j h1 in (d1, found.same _ d1 at1, size1);
        } in
        let holds3 : Holds store inode_bitmap_block_num ib s3 = record {
          valid = found.valid;
          stored = found.same _ ib holds.stored;
          bytes = holds.bytes;
          size = holds.size;
        } in
        let (s', ran, c) =
          fill_entry-Created n old pos.token h' ib (record fs { store = s3 }) lt fits l3
            (d, found.same _ d at, e) holds3 (omega (arith, same_blkno, in_data))
            (omega (arith, same_idx, in_block)) (rw (sym same_entries) whole) chars short in
        let fs1 : Mounted State = record fs { store = s'; info = one_more_inode fs.info } in
        let run : create_file store junk path fs ≡ new_fd n fs1 =
          create_run junk path pos n h' fs search.after s2 s3
            (search.ran ∙ ap (λ o. some (o, search.after)) is_n) walked
            (found.ran ∙ ap (λ o. some (o, s3)) is_hit)
          ∙ ran in
        (
          s',
          run,
          rw (same_blkno, same_idx, same_entries) (Created-Same found.same c),
          subst (OpenResult n fs1) (sym run) (new_fd-Opened n fs1),
        )
