-- ===== src/Tests/Removes.antt =====
-- `RemoveFile` of OS/hw3/fs.c on the tree with the entry `a`.
use kw_home_work.Common.{ℕ, ◌<◌, ◌≡◌, refl, true, some, [], ◌∷◌, arith, length, ◌≢◌}
use kw_home_work.Disk.{zero_block, block_size}
use kw_home_work.Cache.{Cache}
use kw_home_work.Cache.View.{view}
use kw_home_work.Bytes.{splice, overwrite, slice}
use kw_home_work.Bytes.Words.{int_bytes, ints_of}
use kw_home_work.Bitmap.Stored.{Holds}
use kw_home_work.Inode.{read_inode, inode_of, inode_of_ints}
use kw_home_work.Inode.Stored.{IsInode, Listed, block_of}
use kw_home_work.Fs.Entry.{entry_inode, set_entry, strncpy}
use kw_home_work.Fs.Entry.Layout.{entry-Stores}
use kw_home_work.Fs.Walk.Tokens.{join}
use kw_home_work.Fs.Files.{remove_file, free_inode}
use kw_home_work.Fs.Files.Removal.{Removed, removed_info, free_inode-Removed}
use kw_home_work.Fs.Files.Deletion.{Deleted, remove_file-Deleted}
use kw_home_work.Tests.Blocks.{store, stored_zero, zero_block-IsBytes, length-zero_block}
use kw_home_work.Tests.Files.{info}
use kw_home_work.Tests.Trees.{
  tree, tree-IsValid, after_root, entries, root, root_stored, hit, hit-IsHit,
}
use kw_home_work.Tests.Creates.{a_pos, a_pos-Position, unused, mounted, tree-Others}

-- The blocks that neither the root nor its entry touch.
zero_there : (b : ℕ) → b < 512 → b ≢ 3 → b ≢ 7 → view b tree ≡ some zero_block
zero_there b h ne3 ne7 =
    tree-Others b zero_block ne7 (after_root.2.others b zero_block ne3 (stored_zero b h))

zero-Holds : (b : ℕ) → b < 3 → Holds store b zero_block tree
zero-Holds b h = record {
  valid = tree-IsValid;
  stored = zero_there b (omega arith) (omega arith) (omega arith);
  bytes = zero_block-IsBytes;
  size = length-zero_block;
}

tree-Listed : Listed store tree
tree-Listed = record {
  valid = tree-IsValid;
  stored = λ n h.
      let (d, at, size) = after_root.2.listed.stored n h in
      (d, tree-Others (block_of n) d (omega arith) at, size);
}

file_stored : IsInode store 17 unused tree
unfolding zero_block read_inode inode_of ints_of slice inode_of_ints
file_stored = (zero_block, zero_there 4 (omega arith) (omega arith) (omega arith), refl)

a_inode : entry_inode entries 0 ≡ 17
unfolding entry_inode ints_of slice set_entry splice overwrite strncpy int_bytes zero_block
a_inode = refl

length-entries : length entries ≡ block_size
length-entries =
    (entry-Stores 0 zero_block (omega arith) length-zero_block (97 ∷ []) 17 (omega arith, tt)
      (omega arith) (omega arith)).0.size

free_inode-Removed_example :
    (s : Cache) × (free_inode store 17 unused (mounted tree)
      ≡ some (tt, record (mounted s) { info = removed_info info }))
    × Removed store 17 unused zero_block zero_block tree s
free_inode-Removed_example =
    free_inode-Removed store 17 unused zero_block zero_block (mounted tree) (omega arith)
      (omega arith) (omega arith) tree-Listed (zero-Holds 2 (omega arith))
      (zero-Holds 1 (omega arith))

remove_file-Deleted_example :
    (s : Cache) × (remove_file store [] (join ((97 ∷ []) ∷ [])) (mounted tree)
      ≡ some (true, record (mounted s) { info = removed_info info }))
    × Deleted store 17 unused 7 0 entries zero_block zero_block tree s
remove_file-Deleted_example =
    remove_file-Deleted store [] (join ((97 ∷ []) ∷ [])) a_pos root 0 hit 17 unused zero_block
      zero_block (mounted tree) a_pos-Position root_stored hit-IsHit a_inode (omega arith)
      (omega arith) length-entries (omega arith) file_stored (omega arith) (omega arith) tree-Listed
      (zero-Holds 2 (omega arith)) (zero-Holds 1 (omega arith))
