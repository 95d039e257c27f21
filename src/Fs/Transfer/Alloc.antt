-- ===== src/Fs/Transfer/Alloc.antt =====
-- One pointer of the loop of `WriteFile` in OS/hw3/fs.c: the block that it has or gets.
use kw_home_work.Common.{
  ℕ, zero, suc, ◌^◌, ◌<◌, ◌≤◌, ◌≡◌, ◌≢◌, ◌⊎◌, inl, inr, refl, true, false, Option, none, some,
  arith, ◌==◌, if◌then◌else◌, get_or,
}
use native.Mathlib.Decide.{dec_lt}
use kw_home_work.Disk.{Block, block_size}
use kw_home_work.Store.{BlockStore}
use kw_home_work.Bitmap.{block_bitmap_block_num}
use kw_home_work.Bitmap.Search.{is_free, Lowest}
use kw_home_work.Bitmap.Stored.{Holds, Others, get_free_block_num-Searched, block_bitmap-Marked}
use kw_home_work.Inode.{Inode}
use kw_home_work.Inode.Layout.{Fits}
use kw_home_work.Inode.Stored.{Listed, block_of}
use kw_home_work.Fs.{◌>>=◌, ptrs, set_ptr, add32}
use kw_home_work.Fs.Transfer.{alloc_ptr}
use kw_home_work.Fs.Transfer.Reads.{number_lem}

-- The first block of the data region.
abbrev pub data_region_block : ℕ
data_region_block = 7

-- The inode with a new block behind pointer `k`.
abbrev pub grown : ℕ → ℕ → Inode → Inode
grown k b i =
    set_ptr k b (record i { alloc_blocks = add32 i.alloc_blocks 1; size = add32 i.size block_size })

set_ptr_self : (k b : ℕ) (i : Inode) → k < 5 → get_or (ptrs (set_ptr k b i)) k 0 ≡ b
set_ptr_self zero b i h = refl
set_ptr_self (suc zero) b i h = refl
set_ptr_self (suc (suc zero)) b i h = refl
set_ptr_self (suc (suc (suc zero))) b i h = refl
set_ptr_self (suc (suc (suc (suc zero)))) b i h = refl
set_ptr_self (suc (suc (suc (suc (suc k))))) b i h = absurd (omega arith)

grown-Fits : (k b : ℕ) (i : Inode) → k < 5 → b < 512 → Fits i → Fits (grown k b i)
grown-Fits zero b i h small f = omega arith
grown-Fits (suc zero) b i h small f = omega arith
grown-Fits (suc (suc zero)) b i h small f = omega arith
grown-Fits (suc (suc (suc zero))) b i h small f = omega arith
grown-Fits (suc (suc (suc (suc zero)))) b i h small f = omega arith
grown-Fits (suc (suc (suc (suc (suc k))))) b i h small f = absurd (omega arith)

module _ (store : BlockStore) where
  open store use {State, IsValid, block}

  -- A stored block bitmap with the blocks before the data region taken and some block free.
  pub record HasFree (d : Block) (s : State) : Type 0 where
    pub holds : Holds store block_bitmap_block_num d s
    pub reserved : (j : ℕ) → j < data_region_block → is_free j d ≡ false
    pub free : ℕ
    pub in_range : free < 512
    pub is_free_there : is_free free d ≡ true

  -- Pointer `k` leads to a block of the data region, or is 0 and a block is free.
  abbrev pub Slot : ℕ → Inode → State → Type 0
  Slot k i s =
      ((data_region_block ≤ get_or (ptrs i) k 0) × (get_or (ptrs i) k 0 < 2 ^ 31))
      ⊎ ((get_or (ptrs i) k 0 ≡ 0) × ((d : Block) × HasFree d s))

  -- What the loop makes of pointer `k` and the block bitmap, and how many blocks it takes.
  pub record Allocated (k : ℕ) (i : Inode) (s : State) (r : Option ((Inode × ℕ × ℕ) × State))
      : Type 0 where
    pub inode : Inode
    pub blkno : ℕ
    pub taken : ℕ
    pub after : State
    pub ran : r ≡ some ((inode, blkno, taken), after)
    pub listed : Listed store after
    pub fits : Fits inode
    pub in_data : data_region_block ≤ blkno
    pub pointed : get_or (ptrs inode) k 0 ≡ blkno
    pub others :
        (x : ℕ) (y : Block)
        → x ≢ block_bitmap_block_num
        → block x s ≡ some y
        → block x after ≡ some y
    pub kind :
        ((inode ≡ i) × (taken ≡ 0) × (after ≡ s))
        ⊎ ((get_or (ptrs i) k 0 ≡ 0)
            × (inode ≡ grown k blkno i)
            × (taken ≡ 1)
            × ((d : Block) × Holds store block_bitmap_block_num d s
                × (is_free blkno d ≡ true)
                × ((d' : Block) × Holds store block_bitmap_block_num d' after
                    × ((j : ℕ) → is_free j d' ≡ (if blkno == j then false else is_free j d)))))

  Listed-others :
      (s s' : State)
      → IsValid s'
      → Others store block_bitmap_block_num s s'
      → Listed store s
      → Listed store s'
  Listed-others s s' v o l = record {
    valid = v;
    stored =
        λ n h. let (d, at, size) = l.stored n h in (d, o (block_of n) d (omega arith) at, size);
  }

  -- The search finds a block of the data region.
  found_free :
      (d : Block) (s : State)
      → HasFree d s
      → (o : Option ℕ) → Lowest 64 d o
      → (b : ℕ) × (o ≡ some b) × (data_region_block ≤ b) × (b < 512) × (is_free b d ≡ true)
  found_free d s free none all =
      absurd (ground (arith, all free.free (omega (arith, free.in_range)), free.is_free_there))
  found_free d s free (some b) (lt, is_f, first) = (
    b,
    refl,
    elim (dec_lt b data_region_block) [
      | yes low ↦ absurd (ground (arith, free.reserved b low, is_f))
      | no high ↦ omega arith
    ],
    omega arith,
    is_f,
  )

  alloc_fresh :
      (k : ℕ) (i : Inode) (s : State) (d : Block)
      → k < 5
      → Fits i
      → Listed store s
      → get_or (ptrs i) k 0 ≡ 0
      → HasFree d s
      → Allocated k i s (alloc_ptr store k i 0 s)
  unfolding alloc_ptr
  alloc_fresh k i s d h fits l zero_ptr free =
      let search = get_free_block_num-Searched store d s free.holds in
      let (b, is_b, low, high, is_f) = found_free d s free search.result search.lowest in
      let marked = (block_bitmap-Marked store b d search.after (omega arith) search.holds).0 in
      let others : Others store block_bitmap_block_num s marked.after =
        λ x y ne e. marked.becomes.others x y ne (search.same x y e) in
      let is_zero : (get_or (ptrs i) k 0 == 0) ≡ true = ground arith in
      record {
        inode = grown k b i;
        blkno = b;
        taken = 1;
        after = marked.after;
        ran = rw (is_zero, search.ran, ◌>>=◌, is_b, marked.ran, alloc_ptr) refl;
        listed = Listed-others s marked.after marked.becomes.holds.valid others l;
        fits = grown-Fits k b i h high fits;
        in_data = low;
        pointed =
            set_ptr_self k b
              (record i { alloc_blocks = add32 i.alloc_blocks 1; size = add32 i.size block_size })
              h;
        others = others;
        kind = inr (
          zero_ptr,
          refl,
          refl,
          (d, free.holds, is_f, (marked.bitmap, marked.becomes.holds, marked.free)),
        );
      }

  -- For one of the five pointers of an inode that fits, over a whole inode list: if the pointer leads to
  -- the data region, nothing changes. If it is 0 and a block is free, a free block of the data region
  -- is taken in the bitmap and the inode grows by it; no other block is marked and no block outside the
  -- bitmap changes.
  pub alloc_ptr-Allocated :
      (k : ℕ) (i : Inode) (s : State)
      → k < 5
      → Fits i
      → Listed store s
      → Slot k i s
      → Allocated k i s (alloc_ptr store k i 0 s)
  unfolding alloc_ptr
  alloc_ptr-Allocated k i s h fits l (inl (low, small)) =
      let nonzero : (get_or (ptrs i) k 0 == 0) ≡ false = ground arith in
      record {
        inode = i;
        blkno = get_or (ptrs i) k 0;
        taken = 0;
        after = s;
        ran =
            rw (nonzero, number_lem {S = State} (get_or (ptrs i) k 0) s small, ◌>>=◌, alloc_ptr)
              refl;
        listed = l;
        fits = fits;
        in_data = low;
        pointed = refl;
        others = λ x y ne e. e;
        kind = inl (refl, refl, refl);
      }
  alloc_ptr-Allocated k i s h fits l (inr (zero_ptr, (d, free))) =
      alloc_fresh k i s d h fits l zero_ptr free
