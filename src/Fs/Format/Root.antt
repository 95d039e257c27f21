-- ===== src/Fs/Format/Root.antt =====
-- `CreateFileSystem` of OS/hw3/fs.c: the file system that a format leaves.
use kw_home_work.Common.{
  ℕ, ◌≡◌, ◌≢◌, refl, ap, ◌∙◌, false, some, [], ◌∷◌, arith, ◌==◌, if◌then◌else◌, length,
}
use kw_home_work.Disk.{Block, block_size}
use kw_home_work.Store.{BlockStore}
use kw_home_work.Bitmap.{
  get_free_inode_num, get_free_block_num, set_inode_bitmap, set_block_bitmap,
  block_bitmap_block_num, inode_bitmap_block_num,
}
use kw_home_work.Bitmap.Search.{is_free, IsBytes, Lowest, Lowest-unique}
use kw_home_work.Bitmap.Stored.{
  Holds, get_free_block_num-Searched, get_free_inode_num-Searched, block_bitmap-Marked,
  inode_bitmap-Marked,
}
use kw_home_work.Inode.{Inode, get_inode, put_inode, read_inode}
use kw_home_work.Inode.Stored.{IsInode, Listed, block_of, get_inode-IsInode, put_inode-Put}
use kw_home_work.Fs.{
  ◌>>=◌, act, stored, Mounted, FileSysInfo, info_bytes, add32, sub32, filesys_info_block,
}
use kw_home_work.Fs.Entry.{put_entry}
use kw_home_work.Fs.Transfer.Writes.{change_info_lem}
use kw_home_work.Fs.Format.{set_root, format}
use kw_home_work.Fs.Format.Clear.{TakenBelow, clear-Cleared}

-- The inode of the root directory.
abbrev pub root_inode : Inode
root_inode = record {
  alloc_blocks = 1;
  size = 512;
  type = 1;
  ptr0 = 7;
  ptr1 = 0;
  ptr2 = 0;
  ptr3 = 0;
  ptr4 = 0;
}

abbrev pub root_counted : FileSysInfo → FileSysInfo
root_counted i = record i {
  num_alloc_blocks = add32 i.num_alloc_blocks 1;
  num_free_blocks = sub32 i.num_free_blocks 1;
  num_alloc_inodes = add32 i.num_alloc_inodes 1;
}

module _ (store : BlockStore) where
  open store use {State, IsValid, block, buf_read, buf_write, read_law, write_law}

  -- A formatted store: the inode list is whole, inode 0 is the root, its block has the entry `.` for
  -- the inode `n`, the first eight blocks are taken and no others, and `n` is taken from the inode
  -- bitmap.
  pub record Formatted (n : ℕ) (ib junk : Block) (s : State) : Type 0 where
    pub listed : Listed store s
    pub root : IsInode store 0 root_inode s
    pub entry : block 7 s ≡ some (put_entry 0 (46 ∷ 0 ∷ []) n junk)
    pub bitmap : Block
    pub bitmap_holds : Holds store block_bitmap_block_num bitmap s
    pub taken : TakenBelow 8 bitmap
    pub inode_bitmap : Block
    pub inode_bitmap_holds : Holds store inode_bitmap_block_num inode_bitmap s
    pub inode_taken : (j : ℕ) → is_free j inode_bitmap ≡ (if n == j then false else is_free j ib)

  root_run :
      (n : ℕ) (info : FileSysInfo) (junk : Block) (old : Inode) (fs : Mounted State)
      (s1 s2 s3 s4 s5 s6 s7 s8 : State)
      → get_free_block_num store fs.store ≡ some (some 7, s1)
      → get_free_inode_num store s1 ≡ some (some n, s2)
      → buf_write 7 (put_entry 0 (46 ∷ 0 ∷ []) n junk) s2 ≡ some s3
      → buf_write filesys_info_block (info_bytes (root_counted info)) s3 ≡ some s4
      → get_inode store 0 s4 ≡ some (old, s5)
      → put_inode store 0 root_inode s5 ≡ some s6
      → set_block_bitmap store 7 s6 ≡ some s7
      → set_inode_bitmap store n s7 ≡ some s8
      → set_root store info junk fs ≡ some (tt, record fs { store = s8; info = root_counted info })
  unfolding set_root
  root_run n info junk old fs s1 s2 s3 s4 s5 s6 s7 s8 free free2 wrote told got put m7 mn =
      rw
        (
          free,
          ◌>>=◌,
          free2,
          wrote,
          change_info_lem store (λ _. root_counted info) (record fs { store = s3 }) s4 told,
          got,
          put,
          m7,
          set_root,
        )
        (rw (mn, stored, act) refl)

  module _ (n : ℕ) (info : FileSysInfo) (junk d ib : Block) (fs : Mounted State) where
    set_root-Formatted :
        Listed store fs.store
        → Holds store block_bitmap_block_num d fs.store
        → TakenBelow 7 d
        → Holds store inode_bitmap_block_num ib fs.store
        → Lowest 8 ib (some n)
        → (s' : State) × (set_root store info junk fs
            ≡ some (tt, record fs { store = s'; info = root_counted info }))
          × Formatted n ib junk s'
    set_root-Formatted l holds (below, above) ib_holds lowest =
        let search = get_free_block_num-Searched store d fs.store holds in
        let is_seven =
          Lowest-unique 64 d 7 search.result search.lowest
            (omega arith, above 7 (omega arith) (omega arith), below) in
        let s1 = search.after in
        let search2 = get_free_inode_num-Searched store ib s1 (record {
          valid = search.holds.valid;
          stored = search.same _ ib ib_holds.stored;
          bytes = ib_holds.bytes;
          size = ib_holds.size;
        }) in
        let is_n = Lowest-unique 8 ib n search2.result search2.lowest lowest in
        let s2 = search2.after in
        let k2 : (x : ℕ) (y : Block) → block x fs.store ≡ some y → block x s2 ≡ some y =
          λ x y e. search2.same x y (search.same x y e) in
        let entries = put_entry 0 (46 ∷ 0 ∷ []) n junk in
        let (s3, wrote, v3, new3, rest3) = write_law s2 7 entries search2.holds.valid in
        let (s4, told, v4, _, rest4) =
          write_law s3 filesys_info_block (info_bytes (root_counted info)) v3 in
        let k4 : (x : ℕ) (y : Block)
            → x ≢ 0
            → x ≢ 7
            → block x fs.store ≡ some y
            → block x s4 ≡ some y =
          λ x y ne0 ne7 e. rest4 x y ne0 (rest3 x y ne7 (k2 x y e)) in
        let (d0, at0, _) = l.stored 0 (omega arith) in
        let (s5, got, v5, k5) =
          get_inode-IsInode store 0 (read_inode 0 d0) s4 (omega arith) v4
            (d0, k4 3 d0 (omega arith) (omega arith) at0, refl) in
        let l5 : Listed store s5 = record {
          valid = v5;
          stored = λ m lt.
              let (d1, at1, size1) = l.stored m lt in
              (d1, k5 (block_of m) d1 (k4 (block_of m) d1 (omega arith) (omega arith) at1), size1);
        } in
        let (s6, put, p) = put_inode-Put store 0 root_inode s5 (omega arith) (omega arith) l5 in
        let holds6 : Holds store block_bitmap_block_num d s6 = record {
          valid = p.listed.valid;
          stored =
              p.others 2 d (omega arith) (k5 2 d (k4 2 d (omega arith) (omega arith) holds.stored));
          bytes = holds.bytes;
          size = holds.size;
        } in
        let m7 = (block_bitmap-Marked store 7 d s6 (omega arith) holds6).0 in
        let ib_holds7 : Holds store inode_bitmap_block_num ib m7.after = record {
          valid = m7.becomes.holds.valid;
          stored = m7.becomes.others 1 ib (omega arith) (
              p.others 1 ib (omega arith)
                (k5 1 ib (k4 1 ib (omega arith) (omega arith) ib_holds.stored)));
          bytes = ib_holds.bytes;
          size = ib_holds.size;
        } in
        let mn = (inode_bitmap-Marked store n ib m7.after (omega (arith, lowest.0)) ib_holds7).0 in
        let later : (x : ℕ) (y : Block)
            → x ≢ 1
            → x ≢ 2
            → block x s6 ≡ some y
            → block x mn.after ≡ some y =
          λ x y ne1 ne2 e. mn.becomes.others x y ne1 (m7.becomes.others x y ne2 e) in
        (
          mn.after,
          root_run n info junk (read_inode 0 d0) fs s1 s2 s3 s4 s5 s6 m7.after mn.after
              (search.ran ∙ ap (λ o. some (o, s1)) is_seven)
              (search2.ran ∙ ap (λ o. some (o, s2)) is_n) wrote told got put m7.ran mn.ran,
          record {
            listed = record {
              valid = mn.becomes.holds.valid;
              stored = λ m lt.
                  let (d1, at1, size1) = p.listed.stored m lt in
                  (d1, later (block_of m) d1 (omega arith) (omega arith) at1, size1);
            };
            root =
                (let (d1, at1, e1) = p.stored in
                  (d1, later 3 d1 (omega arith) (omega arith) at1, e1));
            entry = later 7 entries (omega arith) (omega arith) (
                p.others 7 entries (omega arith)
                  (k5 7 entries (rest4 7 entries (omega arith) new3)));
            bitmap = m7.bitmap;
            bitmap_holds = record {
              valid = mn.becomes.holds.valid;
              stored = mn.becomes.others 2 m7.bitmap (omega arith) m7.becomes.holds.stored;
              bytes = m7.becomes.holds.bytes;
              size = m7.becomes.holds.size;
            };
            taken = (
              λ j lt. ground (arith, m7.free j, below j),
              λ j from lt. ground (arith, m7.free j, above j),
            );
            inode_bitmap = mn.bitmap;
            inode_bitmap_holds = mn.becomes.holds;
            inode_taken = mn.free;
          },
        )

  module _ (junks : ℕ → Block) (info : FileSysInfo) (junk : Block) (n : ℕ)
      (fs : Mounted State) where
    -- `CreateFileSystem` after `DevResetDiskAccessCount`, on a valid store, where `malloc` left whole blocks
    -- of bytes and `n` is the lowest free number of what it left for the inode bitmap, which the code
    -- does not clear: the format runs without a fault. Whatever was in the blocks, afterwards blocks 0
    -- to 7 are taken and the others below 512 are free, inode 0 is the root directory in block 7, its
    -- block has the entry `.` for `n`, `n` is taken in the inode bitmap, the inode list is whole, and
    -- the counters count the root.
    pub format-Formatted :
        IsValid fs.store
        → ((x : ℕ) → length (junks x) ≡ block_size)
        → ((x : ℕ) → IsBytes (junks x))
        → Lowest 8 (junks 1) (some n)
        → (s' : State) × (format store junks info junk fs
            ≡ some (tt, record fs { store = s'; info = root_counted info }))
          × Formatted n (junks 1) junk s'
    format-Formatted v whole bytes lowest =
        let (s5, ran, c) = clear-Cleared store junks info junk fs v whole (bytes 2) in
        let l : Listed store s5 = record {
          valid = c.valid;
          stored = λ m lt. (
            junks (block_of m),
            c.written (block_of m) (omega arith) (omega arith),
            whole (block_of m),
          );
        } in
        let ib : Holds store inode_bitmap_block_num (junks 1) s5 = record {
          valid = c.valid;
          stored = c.written 1 (omega arith) (omega arith);
          bytes = bytes 1;
          size = whole 1;
        } in
        let (s', ran', f) =
          set_root-Formatted n info junk c.bitmap (junks 1) (record fs { store = s5 }) l c.holds
            c.taken ib lowest in
        (s', ran ∙ ran', f)
