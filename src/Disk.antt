-- ===== src/Disk.antt =====
-- OS/hw3/disk.c: the disk is the file MY_DISK, read and written in whole blocks of 512 bytes.
use kw_home_work.Common.{
  ℕ, ◌+◌, ◌≡◌, ◌≢◌, arith, Option, none, some, List, ◌==◌, ltb, if◌then◌else◌, replicate,
}

abbrev pub block_size : ℕ
block_size = 512

-- The bytes of a block.
abbrev pub Block : Type 0
Block = List ℕ

unfoldable pub zero_block : Block
zero_block = replicate block_size 0

-- The file behind `fd`: its length in blocks, its contents, and the two access counters.
pub record Disk : Type 0 where
  pub size : ℕ
  pub blocks : ℕ → Block
  pub disk_read_count : ℕ
  pub disk_write_count : ℕ

unfoldable pub dev_reset_disk_access_count : Disk → Disk
dev_reset_disk_access_count d = record d { disk_read_count = 0; disk_write_count = 0 }

-- `O_TRUNC`: the file is empty.
unfoldable pub dev_create_disk : Disk → Disk
dev_create_disk d = record d { size = 0; blocks = λ _. zero_block }

-- `read` past the end of the file leaves the caller's buffer as it was.
unfoldable pub dev_read_block : ℕ → Block → Disk → Block × Disk
dev_read_block blkno buf d = (
  if ltb blkno d.size then d.blocks blkno else buf,
  record d { disk_read_count = d.disk_read_count + 1 },
)

-- `write` past the end extends the file; the hole before the block reads as zeros. The offset of the
-- code is an int, which overflows from block 2 ^ 22 on; the disk of a format has 512.
unfoldable pub dev_write_block : ℕ → Block → Disk → Disk
dev_write_block blkno buf d = record d {
  size = if ltb blkno d.size then d.size else blkno + 1;
  blocks = λ b. if b == blkno then buf else if ltb b d.size then d.blocks b else zero_block;
  disk_write_count = d.disk_write_count + 1;
}

-- What the file holds at a block, if it is that long.
unfoldable pub content : Disk → ℕ → Option Block
content d b = if ltb b d.size then some (d.blocks b) else none

pub content-dev_write_block_self :
    (b : ℕ) (buf : Block) (d : Disk) → content (dev_write_block b buf d) b ≡ some buf
unfolding content dev_write_block
content-dev_write_block_self b buf d = ground arith

pub content-dev_write_block_ne :
    (b x : ℕ) (buf v : Block) (d : Disk)
    → x ≢ b
    → content d x ≡ some v
    → content (dev_write_block b buf d) x ≡ some v
unfolding content dev_write_block
content-dev_write_block_ne b x buf v d h k = ground arith
