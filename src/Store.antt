-- ===== src/Store.antt =====
-- What the file system of OS/hw3 uses of the buffer cache: an interface of blocks that are read
-- and written, and the laws that it relies on. `Store.Cached` fills it with the cache.
pub mod Cached
use kw_home_work.Common.{ℕ, ◌≡◌, ◌≢◌, Option, none, some}
use kw_home_work.Disk.{Block}

pub record BlockStore : Type 1 where
  pub State : Type 0
  pub IsValid : State → Type 0
  -- What a block holds, if it holds anything defined.
  pub block : ℕ → State → Option Block
  pub buf_read : ℕ → State → Option (Block × State)
  pub buf_write : ℕ → Block → State → Option State
  pub read_law :
      (s : State) (b : ℕ) (d : Block)
      → IsValid s
      → block b s ≡ some d
      → (s' : State) × (buf_read b s ≡ some (d, s'))
        × IsValid s'
        × ((x : ℕ) (y : Block) → block x s ≡ some y → block x s' ≡ some y)
  pub write_law :
      (s : State) (b : ℕ) (d : Block)
      → IsValid s
      → (s' : State) × (buf_write b d s ≡ some s')
        × IsValid s'
        × (block b s' ≡ some d)
        × ((x : ℕ) (y : Block) → x ≢ b → block x s ≡ some y → block x s' ≡ some y)
