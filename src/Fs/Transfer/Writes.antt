-- ===== src/Fs/Transfer/Writes.antt =====
-- `WriteFile` of OS/hw3/fs.c, for a write of one block.
use mathlib.Core.Path.{subst}
use kw_home_work.Common.{
  ℕ, ◌+◌, ◌-◌, ◌*◌, ◌/◌, ◌^◌, ◌<◌, ◌≤◌, ◌≡◌, ◌≢◌, ◌⊎◌, inl, inr, refl, ap, ◌∙◌, sym, true, false,
  Option, none, some, List, arith, ◌==◌, if◌then◌else◌, ltb, length, get_or,
}
use kw_home_work.Disk.{Block, block_size}
use kw_home_work.Bytes.{slice}
use kw_home_work.Store.{BlockStore}
use kw_home_work.Bitmap.{block_bitmap_block_num}
use kw_home_work.Bitmap.Search.{is_free}
use kw_home_work.Bitmap.Stored.{Holds}
use kw_home_work.Inode.{Inode, put_inode}
use kw_home_work.Inode.Layout.{Fits}
use kw_home_work.Inode.Stored.{
  IsInode, Listed, num_of_inodes, block_of, get_inode-IsInode, put_inode-Put,
}
use kw_home_work.Fs.{
  ◌>>=◌, act, ptrs, stored, Mounted, File, FileSysInfo, info_bytes, change_info, add32, sub32,
  filesys_info_block, num_of_direct_block_ptr,
}
use kw_home_work.Fs.Walk.Search.{Same}
use kw_home_work.Fs.Transfer.{write_loop, write_blocks, write_file, alloc_ptr}
use kw_home_work.Fs.Transfer.Reads.{
  IsOpen, file_of-IsOpen, moved, advance-IsOpen, moved-IsOpen, memory_lem, number_lem,
}
use kw_home_work.Fs.Transfer.Alloc.{Slot, Allocated, alloc_ptr-Allocated, grown, data_region_block}

abbrev pub counted : ℕ → FileSysInfo → FileSysInfo
counted need i = record i {
  num_alloc_blocks = add32 i.num_alloc_blocks need;
  num_free_blocks = sub32 i.num_free_blocks need;
}

abbrev block_or : Block → Option Block → Block
block_or d none = d
block_or d (some y) = y

module _ (store : BlockStore) where
  open store use {State, IsValid, block, buf_write, write_law}

  -- The block of pointer `k`: the one that it had, and the block bitmap is as before, or one that was
  -- free and is the only one that is newly taken in the bitmap.
  pub Kind : ℕ → Inode → Inode → ℕ → ℕ → State → State → Type 0
  Kind k i inode blkno taken s s' =
      ((inode ≡ i)
        × (taken ≡ 0)
        × ((d : Block)
            → Holds store block_bitmap_block_num d s
            → Holds store block_bitmap_block_num d s'))
      ⊎ ((get_or (ptrs i) k 0 ≡ 0)
          × (inode ≡ grown k blkno i)
          × (taken ≡ 1)
          × ((d : Block) × Holds store block_bitmap_block_num d s
              × (is_free blkno d ≡ true)
              × ((d' : Block) × Holds store block_bitmap_block_num d' s'
                  × ((j : ℕ) → is_free j d' ≡ (if blkno == j then false else is_free j d)))))

  -- What the file system is after the write of `data1` at block `k` of the inode `n`.
  pub record Written (n k : ℕ) (i : Inode) (data1 : Block) (fs fs' : Mounted State) : Type 0 where
    pub inode : Inode
    pub blkno : ℕ
    pub taken : ℕ
    pub listed : Listed store fs'.store
    pub in_data : data_region_block ≤ blkno
    pub pointed : get_or (ptrs inode) k 0 ≡ blkno
    pub stored_inode : IsInode store n inode fs'.store
    pub stored_data : block blkno fs'.store ≡ some data1
    pub kind : Kind k i inode blkno taken fs.store fs'.store
    pub counts : fs'.info ≡ counted taken fs.info
    pub inodes :
        (m : ℕ) (j : Inode)
        → m < num_of_inodes
        → m ≢ n
        → IsInode store m j fs.store
        → IsInode store m j fs'.store
    pub others :
        (x : ℕ) (y : Block)
        → data_region_block ≤ x
        → x ≢ blkno
        → block x fs.store ≡ some y
        → block x fs'.store ≡ some y

  write_one :
      (total : ℕ)
      → total ≡ 1
      → (k : ℕ) (buffer : List ℕ) (i : Inode) (s : State)
      → block_size * k + block_size ≤ length buffer
      → (a : Allocated store k i s (alloc_ptr store k i 0 s)) → (s' : State)
      → buf_write a.blkno (slice (block_size * k) block_size buffer) a.after ≡ some s'
      → write_loop store total k buffer i 0 s ≡ some ((a.inode, a.taken), s')
  unfolding write_loop
  write_one total one k buffer i s room a s' wrote =
      ap (λ t. write_loop store t k buffer i 0 s) one
      ∙ rw
          (
            a.ran,
            ◌>>=◌,
            memory_lem {S = State} (block_size * k) block_size buffer a.after room,
            wrote,
            write_loop,
          )
          refl

  Listed-other :
      (s s' : State)
      → IsValid s'
      → (b : ℕ) → ((n : ℕ) → n < num_of_inodes → block_of n ≢ b)
      → ((x : ℕ) (y : Block) → x ≢ b → block x s ≡ some y → block x s' ≡ some y)
      → Listed store s
      → Listed store s'
  Listed-other s s' v b ne o l = record {
    valid = v;
    stored = λ n h. let (d, at, size) = l.stored n h in (d, o (block_of n) d (ne n h) at, size);
  }

  Slot-Same :
      (k : ℕ) (i : Inode) (s s' : State)
      → IsValid s'
      → Same store s s'
      → Slot store k i s
      → Slot store k i s'
  Slot-Same k i s s' v same (inl p) = inl p
  Slot-Same k i s s' v same (inr (z, (d, f))) = inr (
    z,
    (
      d,
      record {
        holds = record {
          valid = v;
          stored = same _ d f.holds.stored;
          bytes = f.holds.bytes;
          size = f.holds.size;
        };
        reserved = f.reserved;
        free = f.free;
        in_range = f.in_range;
        is_free_there = f.is_free_there;
      },
    ),
  )

  pub change_info_lem :
      (f : FileSysInfo → FileSysInfo) (fs : Mounted State) (s' : State)
      → buf_write filesys_info_block (info_bytes (f fs.info)) fs.store ≡ some s'
      → change_info store f fs ≡ some (tt, record fs { store = s'; info = f fs.info })
  unfolding change_info
  change_info_lem f fs s' wrote = rw (wrote, stored, act, change_info) refl

  write_blocks_one :
      (total : ℕ)
      → total ≡ 1
      → (fd k : ℕ) (file : File) (buffer : List ℕ) (i : Inode) (fs : Mounted State) (s : State)
      → (is_open : IsOpen fd file fs) → file.inode_num < 2 ^ 31
      → block_size * k + block_size ≤ length buffer
      → (a : Allocated store k i s (alloc_ptr store k i 0 s)) → (s3 : State)
      → buf_write a.blkno (slice (block_size * k) block_size buffer) a.after ≡ some s3
      → (s4 : State) → put_inode store file.inode_num a.inode s3 ≡ some s4
      → (s5 : State)
      → buf_write filesys_info_block (info_bytes (counted a.taken fs.info)) s4 ≡ some s5
      → write_blocks store fd file total k buffer i (record fs { store = s })
        ≡ some (
          some block_size,
          moved fd file
              (record fs { store = s5; info = counted a.taken fs.info })
              is_open
              block_size,
        )
  unfolding write_blocks
  write_blocks_one total one fd k file buffer i fs s is_open small room a s3 wrote s4 put s5 told =
      let fs5 : Mounted State = record fs { store = s5; info = counted a.taken fs.info } in
      let after = moved fd file fs5 is_open block_size in
      rw
        (
          write_one total one k buffer i s room a s3 wrote,
          ◌>>=◌,
          number_lem {S = Mounted State} file.inode_num (record fs { store = s3 }) small,
          put,
          change_info_lem (counted a.taken) (record fs { store = s4 }) s5 told,
          one,
          advance-IsOpen fd file fs5 is_open block_size,
          write_blocks,
        )
        (ap (λ t. some (some (block_size * t), after)) one)

  Holds-Same :
      (b : ℕ) (d : Block) (s s' : State)
      → IsValid s'
      → ((y : Block) → block b s ≡ some y → block b s' ≡ some y)
      → Holds store b d s
      → Holds store b d s'
  Holds-Same b d s s' v o h = record {
    valid = v;
    stored = o d h.stored;
    bytes = h.bytes;
    size = h.size;
  }

  -- From before the inode was read to after all is written.
  alloc_ptr-Kind :
      (k : ℕ) (i : Inode) (s0 s s' : State)
      → IsValid s'
      → Same store s0 s
      → Slot store k i s0
      → (a : Allocated store k i s (alloc_ptr store k i 0 s))
      → ((y : Block)
          → block block_bitmap_block_num a.after ≡ some y
          → block block_bitmap_block_num s' ≡ some y)
      → Kind k i a.inode a.blkno a.taken s0 s'
  unfolding Kind
  alloc_ptr-Kind k i s0 s s' v same slot a later = elim a.kind [
    | inl (is_i, none_taken, after) ↦ inl (
      is_i,
      none_taken,
      λ d h.
          Holds-Same block_bitmap_block_num d s0 s' v
            (λ y e. later y (rw after (same block_bitmap_block_num y e))) h,
    )
    | inr (zero_ptr, is_grown, one, (d, h, is_f, (d', h', free))) ↦ elim slot [
      | inl (low, _) ↦ absurd (omega (arith, low, zero_ptr))
      | inr (z, (d0, f)) ↦
          let same_d : d0 ≡ d =
            ap (block_or d0) (sym (same block_bitmap_block_num d0 f.holds.stored) ∙ h.stored) in
          inr (
            zero_ptr,
            is_grown,
            one,
            (
              d,
              subst (λ x. Holds store block_bitmap_block_num x s0) same_d f.holds,
              is_f,
              (d', Holds-Same block_bitmap_block_num d' a.after s' v later h', free),
            ),
          )
    ]
  ]

  module _ (fd len k : ℕ) (file : File) (i : Inode) (buffer : List ℕ) (fs : Mounted State) where
    -- `WriteFile` of at most a block, through an open descriptor whose offset is in block `k` below
    -- 5 of a stored inode whose fields fit, over a whole inode list, where that pointer leads to
    -- the data region, or is 0 and the stored block bitmap has the blocks before the data region
    -- taken and another one free, and the buffer's memory reaches to byte 512 * k + 512: it returns
    -- 512 and moves the offset on by 512. The pointer then leads to a block that holds the bytes of
    -- the buffer from 512 * k on. If the pointer was 0, that is a block which was free, is counted,
    -- and alone is newly taken in the block bitmap; otherwise it is the one from before, and the
    -- bitmap does not change. Every other inode and every other block of the data region is as
    -- before.
    pub write_file-Written :
        IsOpen fd file fs
        → Listed store fs.store
        → file.inode_num < num_of_inodes
        → IsInode store file.inode_num i fs.store
        → Fits i
        → file.file_offset / block_size ≡ k
        → k < num_of_direct_block_ptr
        → len ≤ block_size
        → block_size * k + block_size ≤ length buffer
        → Slot store k i fs.store
        → (fs' : Mounted State) × (write_file store fd buffer len fs ≡ some (some block_size, fs'))
          × Written file.inode_num k i (slice (block_size * k) block_size buffer) fs fs'
          × IsOpen fd (record file { file_offset = file.file_offset + block_size }) fs'
    unfolding write_file moved
    write_file-Written is_open l in_list at_inode fits at_k small_k short room slot =
        let n = file.inode_num in
        let data1 = slice (block_size * k) block_size buffer in
        let (s1, got, v1, k1) = get_inode-IsInode store n i fs.store in_list l.valid at_inode in
        let l1 : Listed store s1 = record {
          valid = v1;
          stored = λ m h. let (d, at, size) = l.stored m h in (d, k1 _ d at, size);
        } in
        let a =
          alloc_ptr-Allocated store k i s1 small_k fits l1 (Slot-Same k i fs.store s1 v1 k1 slot) in
        let (s3, wrote, v3, new, rest) = write_law a.after a.blkno data1 a.listed.valid in
        let l3 =
          Listed-other a.after s3 v3 a.blkno (λ m h. omega (arith, a.in_data)) rest a.listed in
        let (s4, put, p) = put_inode-Put store n a.inode s3 in_list a.fits l3 in
        let info = counted a.taken fs.info in
        let (s5, told, v5, _, rest5) =
          write_law s4 filesys_info_block (info_bytes info) p.listed.valid in
        let fs5 : Mounted State = record fs { store = s5; info = info } in
        let one : (len - 1) / block_size + 1 ≡ 1 = omega arith in
        let fits_in : ltb num_of_direct_block_ptr (k + ((len - 1) / block_size + 1)) ≡ false =
          ground arith in
        let fs' = moved fd file fs5 is_open block_size in
        let others : (x : ℕ) (y : Block)
            → data_region_block ≤ x
            → x ≢ a.blkno
            → block x fs.store ≡ some y
            → block x s5 ≡ some y =
          λ x y from ne e.
            rest5 x y (omega arith)
              (p.others x y (omega arith) (rest x y ne (a.others x y (omega arith) (k1 x y e)))) in
        (
          fs',
          rw
              (
                file_of-IsOpen fd file fs is_open,
                ◌>>=◌,
                number_lem {S = Mounted State} n fs (omega arith),
                got,
                at_k,
                fits_in,
                write_file,
              )
              (write_blocks_one ((len - 1) / block_size + 1) one fd k file buffer i fs s1 is_open
                (omega arith) room a s3 wrote s4 put s5 told),
          record {
            inode = a.inode;
            blkno = a.blkno;
            taken = a.taken;
            listed = Listed-other s4 s5 v5 filesys_info_block (λ m h. omega arith) rest5 p.listed;
            in_data = a.in_data;
            pointed = a.pointed;
            stored_inode =
                (let (d, at, e) = p.stored in (d, rest5 (block_of n) d (omega arith) at, e));
            stored_data =
                rest5 a.blkno data1 (omega (arith, a.in_data))
                  (p.others a.blkno data1 (omega (arith, a.in_data)) new);
            kind = alloc_ptr-Kind k i fs.store s1 s5 v5 k1 slot a (λ y e.
                rest5 2 y (omega arith)
                  (p.others 2 y (omega arith) (rest 2 y (omega (arith, a.in_data)) e)));
            counts = refl;
            inodes = λ m j h ne (d, at, e).
                let at3 =
                  rest (block_of m) d (omega (arith, a.in_data))
                    (a.others (block_of m) d (omega arith) (k1 (block_of m) d at)) in
                let (d', at', e') = p.inodes m j ne (d, at3, e) in
                (d', rest5 (block_of m) d' (omega arith) at', e');
            others = others;
          },
          moved-IsOpen fd file fs5 is_open block_size,
        )
