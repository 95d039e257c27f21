-- ===== src/Fs/Files/Removal.antt =====
-- The end of `RemoveFile` and `RemoveDir` of OS/hw3/fs.c: the blocks of an inode, and the inode itself.
use kw_home_work.Common.{
  ℕ, ◌*◌, ◌^◌, ◌<◌, ◌≤◌, ◌≡◌, ◌≢◌, refl, Bool, true, false, not, ◌&&◌, ◌||◌, some, List, [], ◌∷◌,
  arith, ◌==◌, if◌then◌else◌, ltb,
}
use native.Mathlib.Decide.{ℕ_discrete}
use kw_home_work.Disk.{Block, block_size}
use kw_home_work.Store.{BlockStore}
use kw_home_work.Bitmap.{reset_inode_bitmap, inode_bitmap_block_num, block_bitmap_block_num}
use kw_home_work.Bitmap.Search.{is_free}
use kw_home_work.Bitmap.Stored.{Holds, Others, block_bitmap-Marked, inode_bitmap-Marked}
use kw_home_work.Inode.{Inode, put_inode}
use kw_home_work.Inode.Layout.{Fits}
use kw_home_work.Inode.Stored.{IsInode, Listed, num_of_inodes, block_of, put_inode-Put}
use kw_home_work.Fs.{
  ◌>>=◌, ptrs, Mounted, FileSysInfo, info_bytes, add32, sub32, filesys_info_block,
}
use kw_home_work.Fs.Files.{free_blocks, free_inode}
use kw_home_work.Fs.Transfer.Alloc.{data_region_block}
use kw_home_work.Fs.Transfer.Writes.{change_info_lem}

-- Every pointer is 0 or a block number of the bitmap.
abbrev pub AreBlocks : List ℕ → Type 0
AreBlocks [] = Unit {0}
AreBlocks (p ∷ ps) = (p < 8 * block_size) × AreBlocks ps

-- `j` is a pointer other than 0.
abbrev pub is_pointer : ℕ → List ℕ → Bool
is_pointer j [] = false
is_pointer j (p ∷ ps) = (not (p == 0) && (p == j)) || is_pointer j ps

-- The inode without its blocks: only the type is left.
abbrev pub bare : Inode → Inode
bare i = record {
  alloc_blocks = 0;
  size = 0;
  type = i.type;
  ptr0 = 0;
  ptr1 = 0;
  ptr2 = 0;
  ptr3 = 0;
  ptr4 = 0;
}

-- The counters after the removal: one inode less, and as many blocks as before.
abbrev pub removed_info : FileSysInfo → FileSysInfo
removed_info i = record i {
  num_alloc_inodes = sub32 i.num_alloc_inodes 1;
  num_alloc_blocks = sub32 i.num_alloc_blocks 0;
  num_free_blocks = add32 i.num_free_blocks 0;
}

module _ (store : BlockStore) where
  open store use {State, IsValid, block, buf_write, write_law}

  -- The block bitmap with the pointers freed; the other blocks are as before.
  pub record Freed (ps : List ℕ) (d : Block) (s s' : State) : Type 0 where
    pub bitmap : Block
    pub holds : Holds store block_bitmap_block_num bitmap s'
    pub free : (j : ℕ) → is_free j bitmap ≡ (is_pointer j ps || is_free j d)
    pub others : Others store block_bitmap_block_num s s'

  free_blocks-Freed :
      (ps : List ℕ) (d : Block) (s : State)
      → AreBlocks ps
      → Holds store block_bitmap_block_num d s
      → (s' : State) × (free_blocks store ps s ≡ some (tt, s')) × Freed ps d s s'
  unfolding free_blocks
  free_blocks-Freed [] d s h holds =
      (s, refl, record { bitmap = d; holds = holds; free = λ j. refl; others = λ x y ne e. e })
  free_blocks-Freed (p ∷ ps) d s (small, h) holds = elim (ℕ_discrete p 0) [
    | yes z ↦
        let (s', ran, f) = free_blocks-Freed ps d s h holds in
        let is_zero : (p == 0) ≡ true = ground arith in
        (
          s',
          rw (is_zero, free_blocks) ran,
          record {
            bitmap = f.bitmap;
            holds = f.holds;
            free = λ j. ground (arith, f.free j);
            others = f.others;
          },
        )
    | no nz ↦
        let m = (block_bitmap-Marked store p d s small holds).1 in
        let (s', ran, f) = free_blocks-Freed ps m.bitmap m.after h m.becomes.holds in
        let nonzero : (p == 0) ≡ false = ground arith in
        let index : ltb p (2 ^ 31) ≡ true = ground arith in
        (
          s',
          rw (nonzero, index, m.ran, ◌>>=◌, free_blocks) ran,
          record {
            bitmap = f.bitmap;
            holds = f.holds;
            free = λ j. ground (arith, f.free j, m.free j);
            others = λ x y ne e. f.others x y ne (m.becomes.others x y ne e);
          },
        )
  ]

  free_run :
      (n : ℕ) (old : Inode) (fs : Mounted State) (s1 s2 s3 s4 : State)
      → free_blocks store (ptrs old) fs.store ≡ some (tt, s1)
      → put_inode store n (bare old) s1 ≡ some s2
      → reset_inode_bitmap store n s2 ≡ some s3
      → buf_write filesys_info_block (info_bytes (removed_info fs.info)) s3 ≡ some s4
      → free_inode store n old fs ≡ some (tt, record fs { store = s4; info = removed_info fs.info })
  unfolding free_inode
  free_run n old fs s1 s2 s3 s4 freed put reset told =
      rw (freed, ◌>>=◌, put, reset, free_inode)
        (change_info_lem store removed_info (record fs { store = s3 }) s4 told)

  -- The inode is left bare and free in its bitmap, and its blocks are free in theirs; the inode list is
  -- whole, and the other inodes and the data region are as before.
  pub record Removed (n : ℕ) (old : Inode) (d ib : Block) (s s' : State) : Type 0 where
    pub listed : Listed store s'
    pub inode_stored : IsInode store n (bare old) s'
    pub bitmap : Block
    pub bitmap_holds : Holds store block_bitmap_block_num bitmap s'
    pub free : (j : ℕ) → is_free j bitmap ≡ (is_pointer j (ptrs old) || is_free j d)
    pub inode_bitmap : Block
    pub inode_bitmap_holds : Holds store inode_bitmap_block_num inode_bitmap s'
    pub inode_free : (j : ℕ) → is_free j inode_bitmap ≡ (if n == j then true else is_free j ib)
    pub inodes :
        (m : ℕ) (j : Inode) → m < num_of_inodes → m ≢ n → IsInode store m j s → IsInode store m j s'
    pub others :
        (x : ℕ) (y : Block) → data_region_block ≤ x → block x s ≡ some y → block x s' ≡ some y

  module _ (n : ℕ) (old : Inode) (d ib : Block) (fs : Mounted State) where
    -- The end of `RemoveFile` and `RemoveDir`, for an inode that fits, whose pointers are 0 or numbers of
    -- the block bitmap, over a whole inode list and two whole bitmaps: it runs without a fault. All
    -- blocks behind the pointers become free and no others, the inode becomes free and keeps only its
    -- type, every other inode and all of the data region are as before. One inode less is counted,
    -- but no block less.
    pub free_inode-Removed :
        n < num_of_inodes
        → Fits old
        → AreBlocks (ptrs old)
        → Listed store fs.store
        → Holds store block_bitmap_block_num d fs.store
        → Holds store inode_bitmap_block_num ib fs.store
        → (s' : State) × (free_inode store n old fs
            ≡ some (tt, record fs { store = s'; info = removed_info fs.info }))
          × Removed n old d ib fs.store s'
    free_inode-Removed lt fits blocks l holds ib_holds =
        let (s1, freed, f) = free_blocks-Freed (ptrs old) d fs.store blocks holds in
        let l1 : Listed store s1 = record {
          valid = f.holds.valid;
          stored = λ m h.
              let (d1, at, size) = l.stored m h in
              (d1, f.others (block_of m) d1 (omega arith) at, size);
        } in
        let type_fits : Fits (bare old) = omega arith in
        let (s2, put, p) = put_inode-Put store n (bare old) s1 lt type_fits l1 in
        let ib2 : Holds store inode_bitmap_block_num ib s2 = record {
          valid = p.listed.valid;
          stored = p.others 1 ib (omega arith) (f.others 1 ib (omega arith) ib_holds.stored);
          bytes = ib_holds.bytes;
          size = ib_holds.size;
        } in
        let m = (inode_bitmap-Marked store n ib s2 (omega arith) ib2).1 in
        let (s4, told, v4, _, rest) =
          write_law m.after filesys_info_block (info_bytes (removed_info fs.info))
            m.becomes.holds.valid in
        let later : (x : ℕ) (y : Block)
            → x ≢ 0
            → x ≢ 1
            → block x s2 ≡ some y
            → block x s4 ≡ some y =
          λ x y ne0 ne1 e. rest x y ne0 (m.becomes.others x y ne1 e) in
        (
          s4,
          free_run n old fs s1 s2 m.after s4 freed put m.ran told,
          record {
            listed = record {
              valid = v4;
              stored = λ j h.
                  let (d1, at, size) = p.listed.stored j h in
                  (d1, later (block_of j) d1 (omega arith) (omega arith) at, size);
            };
            inode_stored =
                (let (d1, at, e) = p.stored in
                  (d1, later (block_of n) d1 (omega arith) (omega arith) at, e));
            bitmap = f.bitmap;
            bitmap_holds = record {
              valid = v4;
              stored =
                  later 2 f.bitmap (omega arith) (omega arith)
                    (p.others 2 f.bitmap (omega arith) f.holds.stored);
              bytes = f.holds.bytes;
              size = f.holds.size;
            };
            free = f.free;
            inode_bitmap = m.bitmap;
            inode_bitmap_holds = record {
              valid = v4;
              stored = rest 1 m.bitmap (omega arith) m.becomes.holds.stored;
              bytes = m.becomes.holds.bytes;
              size = m.becomes.holds.size;
            };
            inode_free = m.free;
            inodes = λ j i h ne (d1, at, e).
                let (d2, at2, e2) =
                  p.inodes j i ne (d1, f.others (block_of j) d1 (omega arith) at, e) in
                (d2, later (block_of j) d2 (omega arith) (omega arith) at2, e2);
            others = λ x y from e.
                later x y (omega arith) (omega arith)
                  (p.others x y (omega arith) (f.others x y (omega arith) e));
          },
        )
