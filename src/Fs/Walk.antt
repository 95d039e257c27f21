-- ===== src/Fs/Walk.antt =====
-- Paths and the search of directories in OS/hw3/fs.c: the loops over `dirBlockPtr` and the entries of
-- its blocks, and `getDirPos`.
pub mod Tokens
pub mod Search
pub mod Paths
use kw_home_work.Common.{
  ℕ, zero, suc, ◌+◌, Bool, true, false, Option, none, some, List, [], ◌∷◌, ◌++◌, ◌==◌,
  if◌then◌else◌, take,
}
use kw_home_work.Disk.{Block}
use kw_home_work.Store.{BlockStore}
use kw_home_work.Inode.{get_inode}
use kw_home_work.Fs.{Step, ◌>>=◌, give, number, ptrs}
use kw_home_work.Fs.Entry.{num_of_dirent_per_block, entry_inode, is_named}

-- `strtok` with "/" on what is left of the path, `cur` read so far.
abbrev pub close : List ℕ → List (List ℕ) → List (List ℕ)
close [] ts = ts
close (c ∷ cs) ts = (c ∷ cs) ∷ ts

unfoldable pub tokens_from : List ℕ → List ℕ → List (List ℕ)
tokens_from cur [] = close cur []
tokens_from cur (c ∷ cs) =
    let next = tokens_from [] cs in
    let on = tokens_from (cur ++ c ∷ []) cs in if c == 47 then close cur next else on

-- The path is cut after 99 bytes.
unfoldable pub tokens : List ℕ → List (List ℕ)
unfolding tokens_from
tokens path = tokens_from [] (take 99 path)

-- The loop over the entries of a block, with the rounds left: the first that passes the test.
unfoldable pub find_entry : ℕ → ℕ → (ℕ → Bool) → Option ℕ
find_entry zero j test = none
find_entry (suc n) j test = let rest = find_entry n (j + 1) test in if test j then some j else rest

-- Where the loops stop: the pointer's index, its block, the entry's index and the block's contents.
pub record Hit : Type 0 where
  pub ptr_idx : ℕ
  pub blkno : ℕ
  pub idx : ℕ
  pub entries : Block

-- What `getDirPos` leaves: its result, `*curInodeNo` and `retToken`.
pub record DirPos : Type 0 where
  pub found : Bool
  pub inode_no : ℕ
  pub token : List ℕ

module _ (store : BlockStore) where
  open store use {State, buf_read}

  -- The two loops; pointers that are 0 are skipped.
  unfoldable pub scan : (Block → ℕ → Bool) → ℕ → List ℕ → Step State (Option Hit)
  unfolding find_entry
  scan test i [] = give none
  scan test i (p ∷ ps) =
      let rest = scan test (i + 1) ps in
      let here = do
        b ← number p
        entries ← buf_read b
        elim (find_entry num_of_dirent_per_block 0 (test entries)) [
          | none ↦ rest
          | some j ↦ give (some (record { ptr_idx = i; blkno = b; idx = j; entries = entries }))
        ]
      in if p == 0 then rest else here

  unfoldable pub scan_inode : (Block → ℕ → Bool) → ℕ → Step State (Option Hit)
  unfolding scan
  scan_inode test n = do n1 ← number n; inode ← get_inode store n1; scan test 0 (ptrs inode)

  -- The `while` of `getDirPos`: `junk` is what `malloc` left in `retToken`.
  unfoldable pub walk : List ℕ → List (List ℕ) → ℕ → Step State DirPos
  unfolding scan_inode
  walk junk [] cur = give (record { found = false; inode_no = cur; token = junk })
  walk junk (t ∷ []) cur = give (record { found = true; inode_no = cur; token = t })
  walk junk (t ∷ u ∷ ts) cur = do
    hit ← scan_inode (is_named t) cur
    elim hit [
      | none ↦ give (record { found = false; inode_no = cur; token = junk })
      | some h ↦ walk junk (u ∷ ts) (entry_inode h.entries h.idx)
    ]

  unfoldable pub get_dir_pos : List ℕ → List ℕ → Step State DirPos
  unfolding walk tokens
  get_dir_pos junk path = walk junk (tokens path) 0
