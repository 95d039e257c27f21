-- ===== src/Bitmap.antt =====
-- The bitmaps of OS/hw3/fs_internal.c: a number is taken if its bit is set, highest bit of a byte
-- first.
pub mod Bits
pub mod Search
pub mod Stored
use kw_home_work.Common.{
  ℕ, zero, suc, ◌+◌, ◌-◌, ◌*◌, ◌/◌, ◌%◌, ◌^◌, Bool, true, false, Option, none, some, List, [], ◌∷◌,
  ◌==◌, if◌then◌else◌, get_or, set,
}
use Prim.Native.Nat.{bit_and, bit_or}
use kw_home_work.Disk.{Block}
use kw_home_work.Store.{BlockStore}

-- `pData[byteIndex] |= (1 << bitIndex)` and `pData[byteIndex] &= ~(1 << bitIndex)`.
unfoldable pub set_bit : ℕ → ℕ → ℕ
set_bit byte k = bit_or byte (2 ^ k)

unfoldable pub reset_bit : ℕ → ℕ → ℕ
reset_bit byte k = bit_and byte (255 - 2 ^ k)

-- `(pData[byteIdx] & (1 << actualBitIdx)) == 0`
unfoldable pub is_bit_clear : ℕ → ℕ → Bool
is_bit_clear byte k = bit_and byte (2 ^ k) == 0

unfoldable pub mark : ℕ → Block → Block
mark n bitmap = set bitmap (n / 8) (set_bit (get_or bitmap (n / 8) 0) (7 - n % 8))

unfoldable pub unmark : ℕ → Block → Block
unmark n bitmap = set bitmap (n / 8) (reset_bit (get_or bitmap (n / 8) 0) (7 - n % 8))

-- The inner loop of the searches, with the rounds left.
unfoldable pub free_bit : ℕ → ℕ → ℕ → Option ℕ
free_bit zero bit_idx byte = none
free_bit (suc n) bit_idx byte =
    if is_bit_clear byte (7 - bit_idx) then some bit_idx else free_bit n (bit_idx + 1) byte

-- The outer loop; `none` is the -1 of the code.
unfoldable pub free_number : ℕ → ℕ → Block → Option ℕ
free_number zero byte_idx bitmap = none
free_number (suc n) byte_idx bitmap =
    let rest = free_number n (byte_idx + 1) bitmap in
    elim (free_bit 8 0 (get_or bitmap byte_idx 0)) [
      | some bit_idx ↦ some (byte_idx * 8 + bit_idx)
      | none ↦ rest
    ]

abbrev pub inode_bitmap_block_num : ℕ
inode_bitmap_block_num = 1

abbrev pub block_bitmap_block_num : ℕ
block_bitmap_block_num = 2

-- The operations on the stored bitmaps.
module _ (store : BlockStore) where
  open store use {State, buf_read, buf_write}

  unfoldable pub change : ℕ → (Block → Block) → State → Option State
  change blkno f s = elim (buf_read blkno s) [
    | none ↦ none
    | some (bitmap, s1) ↦ buf_write blkno (f bitmap) s1
  ]

  unfoldable pub set_inode_bitmap : ℕ → State → Option State
  set_inode_bitmap inodeno = change inode_bitmap_block_num (mark inodeno)

  unfoldable pub reset_inode_bitmap : ℕ → State → Option State
  reset_inode_bitmap inodeno = change inode_bitmap_block_num (unmark inodeno)

  unfoldable pub set_block_bitmap : ℕ → State → Option State
  set_block_bitmap blkno = change block_bitmap_block_num (mark blkno)

  unfoldable pub reset_block_bitmap : ℕ → State → Option State
  reset_block_bitmap blkno = change block_bitmap_block_num (unmark blkno)

  unfoldable pub get_free_inode_num : State → Option (Option ℕ × State)
  get_free_inode_num s = elim (buf_read inode_bitmap_block_num s) [
    | none ↦ none
    | some (bitmap, s1) ↦ some (free_number 8 0 bitmap, s1)
  ]

  unfoldable pub get_free_block_num : State → Option (Option ℕ × State)
  get_free_block_num s = elim (buf_read block_bitmap_block_num s) [
    | none ↦ none
    | some (bitmap, s1) ↦ some (free_number 64 0 bitmap, s1)
  ]
