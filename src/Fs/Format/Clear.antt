-- ===== src/Fs/Format/Clear.antt =====
-- `CreateFileSystem` of OS/hw3/fs.c up to `setRoot`.
use kw_home_work.Common.{ℕ, ◌<◌, ◌≤◌, ◌≡◌, ◌≢◌, inl, refl, ◌∙◌, true, false, some, arith, length}
use kw_home_work.Disk.{Block, block_size}
use kw_home_work.Store.{BlockStore}
use kw_home_work.Bitmap.{
  set_block_bitmap, reset_block_bitmap, block_bitmap_block_num, inode_bitmap_block_num,
}
use kw_home_work.Bitmap.Search.{is_free, IsBytes}
use kw_home_work.Bitmap.Stored.{Holds, block_bitmap-Marked}
use kw_home_work.Fs.{◌>>=◌, act, Mounted, FileSysInfo}
use kw_home_work.Fs.Format.{each, init_file_sys, set_root, format}
use kw_home_work.Fs.Format.Loops.{each-Filled, each-MarkedAll}

-- The blocks before `k` are taken, and the others below 512 are free.
abbrev pub TakenBelow : ℕ → Block → Type 0
TakenBelow k d =
    ((j : ℕ) → j < k → is_free j d ≡ false) × ((j : ℕ) → k ≤ j → j < 512 → is_free j d ≡ true)

module _ (store : BlockStore) where
  open store use {State, IsValid, block, buf_read, buf_write, read_law, write_law}

  -- The state before `setRoot`: every block that `InitFileSys` wrote but the block bitmap reads as
  -- written, and the bitmap has the first seven blocks taken.
  pub record Cleared (junks : ℕ → Block) (s : State) : Type 0 where
    pub valid : IsValid s
    pub bitmap : Block
    pub holds : Holds store block_bitmap_block_num bitmap s
    pub taken : TakenBelow 7 bitmap
    pub written : (x : ℕ) → x < 512 → x ≢ 2 → block x s ≡ some (junks x)

  format_run :
      (junks : ℕ → Block) (info : FileSysInfo) (junk a b : Block) (fs : Mounted State)
      (s1 s2 s3 s4 s5 : State)
      → init_file_sys store junks fs.store ≡ some (tt, s1)
      → buf_read block_bitmap_block_num s1 ≡ some (a, s2)
      → buf_read inode_bitmap_block_num s2 ≡ some (b, s3)
      → each store 7 0 (λ i. act (set_block_bitmap store i)) s3 ≡ some (tt, s4)
      → each store 505 7 (λ i. act (reset_block_bitmap store i)) s4 ≡ some (tt, s5)
      → format store junks info junk fs ≡ set_root store info junk (record fs { store = s5 })
  unfolding format
  format_run junks info junk a b fs s1 s2 s3 s4 s5 filled read1 read2 taken freed =
      rw (filled, ◌>>=◌, read1, read2, taken, freed, format) refl

  module _ (junks : ℕ → Block) (info : FileSysInfo) (junk : Block) (fs : Mounted State) where
    pub clear-Cleared :
        IsValid fs.store
        → ((x : ℕ) → length (junks x) ≡ block_size)
        → IsBytes (junks 2)
        → (s5 : State) × (format store junks info junk fs
            ≡ set_root store info junk (record fs { store = s5 }))
          × Cleared junks s5
    unfolding init_file_sys
    clear-Cleared v whole bytes =
        let (s1, filled, f) = each-Filled store 512 0 junks fs.store v in
        let at = λ (x : ℕ) (lt : x < 512). f.inside x (omega arith) (omega arith) in
        let (s2, read1, v2, k2) = read_law s1 2 (junks 2) f.valid (at 2 (omega arith)) in
        let (s3, read2, v3, k3) = read_law s2 1 (junks 1) v2 (k2 1 _ (at 1 (omega arith))) in
        let same : (x : ℕ) (y : Block) → block x s1 ≡ some y → block x s3 ≡ some y =
          λ x y e. k3 x y (k2 x y e) in
        let holds3 : Holds store block_bitmap_block_num (junks 2) s3 = record {
          valid = v3;
          stored = same 2 _ (at 2 (omega arith));
          bytes = bytes;
          size = whole 2;
        } in
        let (s4, taken, m4) =
          each-MarkedAll store true (set_block_bitmap store)
            (λ j d s lt h. (block_bitmap-Marked store j d s lt h).0) 7 0 (junks 2) s3 (omega arith)
            holds3 in
        let (s5, freed, m5) =
          each-MarkedAll store false (reset_block_bitmap store)
            (λ j d s lt h. (block_bitmap-Marked store j d s lt h).1) 505 7 m4.bitmap s4
            (omega arith) m4.holds in
        (
          s5,
          format_run junks info junk (junks 2) (junks 1) fs s1 s2 s3 s4 s5 filled read1 read2 taken
              freed,
          record {
            valid = m5.holds.valid;
            bitmap = m5.bitmap;
            holds = m5.holds;
            taken = (
              λ j lt. m5.outside j (inl lt) ∙ m4.inside j (omega arith) (omega arith),
              λ j from lt. m5.inside j from (omega arith),
            );
            written = λ x lt ne. m5.others x _ ne (m4.others x _ ne (same x _ (at x lt)));
          },
        )
