-- ===== src/Bitmap/Stored.antt =====
-- The bitmap operations of OS/hw3/fs_internal.c on the stored blocks.
use kw_home_work.Common.{
  ℕ, ◌*◌, ◌/◌, ◌<◌, ◌≡◌, ◌≢◌, refl, Bool, true, false, not, Option, some, arith, ◌∙◌, ◌==◌,
  if◌then◌else◌, length,
}
use kw_home_work.Disk.{Block, block_size}
use kw_home_work.Store.{BlockStore}
use kw_home_work.Bitmap.{
  mark, unmark, change, free_number, set_block_bitmap, reset_block_bitmap, get_free_block_num,
  set_inode_bitmap, reset_inode_bitmap, get_free_inode_num, block_bitmap_block_num,
  inode_bitmap_block_num,
}
use kw_home_work.Bitmap.Search.{
  is_free, IsBytes, is_free-mark, is_free-unmark, Lowest, free_number-Lowest, length-mark,
  length-unmark, mark-IsBytes, unmark-IsBytes,
}

module _ (store : BlockStore) where
  open store use {State, IsValid, block, buf_read, buf_write, read_law, write_law}

  -- The bitmap in block `no` reads `d`, a whole block of bytes.
  pub record Holds (b : ℕ) (d : Block) (s : State) : Type 0 where
    pub valid : IsValid s
    pub stored : block b s ≡ some d
    pub bytes : IsBytes d
    pub size : length d ≡ block_size

  -- Every other block that could be read reads the same.
  abbrev pub Others : ℕ → State → State → Type 0
  Others b s s' = (x : ℕ) (y : Block) → x ≢ b → block x s ≡ some y → block x s' ≡ some y

  -- The stored bitmap is `d` afterwards, and the other blocks are as before.
  pub record Becomes (b : ℕ) (d : Block) (s s' : State) : Type 0 where
    pub holds : Holds b d s'
    pub others : Others b s s'

  change-Becomes :
      (b : ℕ) (f : Block → Block) (d : Block) (s : State)
      → Holds b d s
      → IsBytes (f d)
      → length (f d) ≡ block_size
      → (s' : State) × (change store b f s ≡ some s') × Becomes b (f d) s s'
  unfolding change
  change-Becomes b f d s h bytes size =
      let (s1, got, v1, kept) = read_law s b d h.valid h.stored in
      let (s2, wrote, v2, new, rest) = write_law s1 b (f d) v1 in
      (
        s2,
        rw (got, change) wrote,
        record {
          holds = record { valid = v2; stored = new; bytes = bytes; size = size };
          others = λ x y ne k. rest x y ne (kept x y k);
        },
      )

  -- What a change of the number `n` makes of the bitmap in block `b`.
  pub record Marked (b n : ℕ) (taken : Bool) (d : Block) (s : State) (r : Option State)
      : Type 0 where
    pub after : State
    pub ran : r ≡ some after
    pub bitmap : Block
    pub becomes : Becomes b bitmap s after
    pub free : (j : ℕ) → is_free j bitmap ≡ (if n == j then not taken else is_free j d)

  module _ (n : ℕ) (d : Block) (s : State) (in_range : n < 8 * block_size) where
    mark-Marked : (b : ℕ) → Holds b d s → Marked b n true d s (change store b (mark n) s)
    mark-Marked b h =
        let small : n / 8 < length d = omega (arith, h.size) in
        let (s', ran, now) =
          change-Becomes b (mark n) d s h (mark-IsBytes n d h.bytes) (length-mark n d ∙ h.size) in
        record {
          after = s';
          ran = ran;
          bitmap = mark n d;
          becomes = now;
          free = λ j. ground (arith, is_free-mark n j d h.bytes small);
        }

    unmark-Marked : (b : ℕ) → Holds b d s → Marked b n false d s (change store b (unmark n) s)
    unmark-Marked b h =
        let small : n / 8 < length d = omega (arith, h.size) in
        let (s', ran, now) =
          change-Becomes b (unmark n) d s h (unmark-IsBytes n d h.bytes)
            (length-unmark n d ∙ h.size) in
        record {
          after = s';
          ran = ran;
          bitmap = unmark n d;
          becomes = now;
          free = λ j. ground (arith, is_free-unmark n j d h.bytes small);
        }

    -- For a number below 4096 and a bitmap stored whole, `SetBlockBitmap` takes the number and
    -- `ResetBlockBitmap` frees it; no other number and no other readable block changes.
    pub block_bitmap-Marked :
        Holds block_bitmap_block_num d s
        → Marked block_bitmap_block_num n true d s (set_block_bitmap store n s)
          × Marked block_bitmap_block_num n false d s (reset_block_bitmap store n s)
    unfolding set_block_bitmap reset_block_bitmap
    block_bitmap-Marked h =
        (mark-Marked block_bitmap_block_num h, unmark-Marked block_bitmap_block_num h)

    -- For a number below 4096 and a bitmap stored whole, `SetInodeBitmap` takes the number and
    -- `ResetInodeBitmap` frees it; no other number and no other readable block changes.
    pub inode_bitmap-Marked :
        Holds inode_bitmap_block_num d s
        → Marked inode_bitmap_block_num n true d s (set_inode_bitmap store n s)
          × Marked inode_bitmap_block_num n false d s (reset_inode_bitmap store n s)
    unfolding set_inode_bitmap reset_inode_bitmap
    inode_bitmap-Marked h =
        (mark-Marked inode_bitmap_block_num h, unmark-Marked inode_bitmap_block_num h)

  -- What a search promises: the lowest free number of `8 * n`, and that nothing stored changes.
  pub record Searched (b n : ℕ) (d : Block) (s : State) (r : Option (Option ℕ × State))
      : Type 0 where
    pub result : Option ℕ
    pub after : State
    pub ran : r ≡ some (result, after)
    pub lowest : Lowest n d result
    pub holds : Holds b d after
    pub same : (x : ℕ) (y : Block) → block x s ≡ some y → block x after ≡ some y

  -- With a bitmap stored whole, `GetFreeBlockNum` returns the lowest free number below 512, or -1 only
  -- if all are taken, and every readable block reads as before.
  pub get_free_block_num-Searched :
      (d : Block) (s : State)
      → Holds block_bitmap_block_num d s
      → Searched block_bitmap_block_num 64 d s (get_free_block_num store s)
  unfolding get_free_block_num
  get_free_block_num-Searched d s h =
      let (s1, got, v1, kept) = read_law s block_bitmap_block_num d h.valid h.stored in
      record {
        result = free_number 64 0 d;
        after = s1;
        ran = rw (got, get_free_block_num) refl;
        lowest = free_number-Lowest 64 d;
        holds = record { valid = v1; stored = kept _ _ h.stored; bytes = h.bytes; size = h.size };
        same = kept;
      }

  -- With a bitmap stored whole, `GetFreeInodeNum` returns the lowest free number below 64, or -1 only
  -- if all are taken, and every readable block reads as before.
  pub get_free_inode_num-Searched :
      (d : Block) (s : State)
      → Holds inode_bitmap_block_num d s
      → Searched inode_bitmap_block_num 8 d s (get_free_inode_num store s)
  unfolding get_free_inode_num
  get_free_inode_num-Searched d s h =
      let (s1, got, v1, kept) = read_law s inode_bitmap_block_num d h.valid h.stored in
      record {
        result = free_number 8 0 d;
        after = s1;
        ran = rw (got, get_free_inode_num) refl;
        lowest = free_number-Lowest 8 d;
        holds = record { valid = v1; stored = kept _ _ h.stored; bytes = h.bytes; size = h.size };
        same = kept;
      }
