-- ===== src/Tests/Creates.antt =====
-- `OpenFile` and `CreateFile` of OS/hw3/fs.c on the tree with the entry `a`.
use kw_home_work.Common.{
  ℕ, zero, suc, ◌<◌, ◌≡◌, inl, inr, refl, true, false, some, [], ◌∷◌, arith, length, replicate,
  get_or-replicate,
}
use kw_home_work.Disk.{Block, zero_block, block_size}
use kw_home_work.Cache.{Cache}
use kw_home_work.Cache.Valid.{IsValid}
use kw_home_work.Bytes.{splice, overwrite, slice}
use kw_home_work.Bytes.Words.{int_bytes, ints_of}
use kw_home_work.Bitmap.{is_bit_clear}
use kw_home_work.Bitmap.Search.{is_free, IsBytes, Lowest}
use kw_home_work.Bitmap.Stored.{Holds, Others}
use kw_home_work.Inode.{Inode, read_inode, inode_of, inode_of_ints}
use kw_home_work.Inode.Stored.{IsInode, Listed, block_of}
use kw_home_work.Fs.{Mounted, FilePtr, new_fd}
use kw_home_work.Fs.Entry.{entry_inode, is_vacant, set_entry, strncpy}
use kw_home_work.Fs.Entry.Layout.{entry-Stores}
use kw_home_work.Fs.Walk.{Hit, DirPos, tokens, tokens_from}
use kw_home_work.Fs.Walk.Tokens.{join}
use kw_home_work.Fs.Walk.Search.{IsHit, Same}
use kw_home_work.Fs.Walk.Paths.{IsDir, Position}
use kw_home_work.Fs.Files.{open_file, create_file}
use kw_home_work.Fs.Files.Descriptors.{OpenResult}
use kw_home_work.Fs.Files.Opening.{Opens, LeadsTo, opening, open_file-opening}
use kw_home_work.Fs.Files.Creation.{Created, create_file-Created, one_more_inode}
use kw_home_work.Tests.Blocks.{store, stored_zero, length-zero_block}
use kw_home_work.Tests.Files.{info}
use kw_home_work.Tests.Trees.{
  tree, tree-IsValid, after_root, entries, entries_stored, root, root_stored, hit, hit-IsHit,
}

-- The inode bitmap with the root taken, stored over the tree.
abbrev inode_bitmap : Block
inode_bitmap = 128 ∷ replicate 511 0

disk_tree : Cache
disk_tree = (store.write_law tree 1 inode_bitmap tree-IsValid).0

disk_tree-IsValid : IsValid disk_tree
unfolding disk_tree
disk_tree-IsValid = (store.write_law tree 1 inode_bitmap tree-IsValid).2

disk_tree-Others : Others store 1 tree disk_tree
unfolding disk_tree
disk_tree-Others = (store.write_law tree 1 inode_bitmap tree-IsValid).4

inode_bitmap-Holds : Holds store 1 inode_bitmap disk_tree
unfolding disk_tree
inode_bitmap-Holds = record {
  valid = disk_tree-IsValid;
  stored = (store.write_law tree 1 inode_bitmap tree-IsValid).3;
  bytes = bytes;
  size = refl;
}
  where
    bytes : IsBytes inode_bitmap
    bytes zero = omega arith
    bytes (suc i) = get_or-replicate 511 i

pub tree-Others : Others store 7 after_root.0 tree
unfolding tree
tree-Others = (store.write_law after_root.0 7 entries after_root.2.listed.valid).4

disk_tree-Listed : Listed store disk_tree
disk_tree-Listed = record {
  valid = disk_tree-IsValid;
  stored = λ n h.
      let (d, at, size) = after_root.2.listed.stored n h in
      (
        d,
        disk_tree-Others (block_of n) d (omega arith) (tree-Others (block_of n) d (omega arith) at),
        size,
      );
}

root_there : IsDir store 0 root disk_tree
root_there =
    let (d, at, e) = root_stored.stored in
    record {
      in_list = omega arith;
      stored = (d, disk_tree-Others 3 d (omega arith) at, e);
      readable = (
        inr (
          omega arith,
          omega arith,
          entries,
          disk_tree-Others 7 entries (omega arith) entries_stored,
        ),
        (inl refl, (inl refl, (inl refl, (inl refl, tt)))),
      );
    }

abbrev pub a_pos : DirPos
a_pos = record { found = true; inode_no = 0; token = 97 ∷ [] }

pub a_pos-Position : Position store tree [] (join ((97 ∷ []) ∷ [])) a_pos
unfolding tokens tokens_from join
a_pos-Position = inl (refl, (refl, refl))

a-LeadsTo : LeadsTo store tree a_pos (some 17)
unfolding entry_inode ints_of slice set_entry splice overwrite strncpy int_bytes zero_block
a-LeadsTo = (refl, (root, root_stored, (hit, (0, hit-IsHit), refl)))

abbrev pub mounted : Cache → Mounted Cache
mounted c = record {
  store = c;
  info = info;
  file_desc = record { used = false; open_file = FilePtr.null } ∷ [];
}

open_file-opening_example :
    (s : Cache) × (open_file store [] (join ((97 ∷ []) ∷ [])) (mounted tree)
      ≡ opening store (some 17) (mounted s))
    × IsValid s
    × Same store tree s
    × Opens store (some 17) (mounted s) (open_file store [] (join ((97 ∷ []) ∷ [])) (mounted tree))
open_file-opening_example =
    open_file-opening store [] (join ((97 ∷ []) ∷ [])) a_pos (some 17) (mounted tree) tree-IsValid
      a_pos-Position a-LeadsTo

-- The entry behind `a` is vacant.
abbrev vacancy : Hit
vacancy = record { ptr_idx = 0; blkno = 7; idx = 1; entries = entries }

vacancy-IsHit : IsHit store is_vacant 7 disk_tree vacancy
unfolding is_vacant set_entry splice overwrite strncpy int_bytes zero_block
vacancy-IsHit = record {
  nonzero = omega arith;
  same = refl;
  stored = disk_tree-Others 7 entries (omega arith) entries_stored;
  in_block = omega arith;
  passes = refl;
  first = first;
}
  where
    first : (k : ℕ) → k < 1 → is_vacant entries k ≡ false
    first zero h = refl
    first (suc k) h = absurd (omega arith)

one-Lowest : Lowest 8 inode_bitmap (some 1)
unfolding is_bit_clear
one-Lowest = (omega arith, refl, first)
  where
    first : (j : ℕ) → j < 1 → is_free j inode_bitmap ≡ false
    first zero h = refl
    first (suc j) h = absurd (omega arith)

abbrev pub unused : Inode
unused = record {
  alloc_blocks = 0;
  size = 0;
  type = 0;
  ptr0 = 0;
  ptr1 = 0;
  ptr2 = 0;
  ptr3 = 0;
  ptr4 = 0;
}

unused_stored : IsInode store 1 unused disk_tree
unfolding zero_block read_inode inode_of ints_of slice inode_of_ints
unused_stored =
    let (d, at, e) =
      after_root.2.inodes 1 unused (omega arith) (zero_block, stored_zero 3 (omega arith), refl) in
    (d, disk_tree-Others 3 d (omega arith) (tree-Others 3 d (omega arith) at), e)

abbrev b_pos : DirPos
b_pos = record { found = true; inode_no = 0; token = 98 ∷ [] }

b_pos-Position : Position store disk_tree [] (join ((98 ∷ []) ∷ [])) b_pos
unfolding tokens tokens_from join
b_pos-Position = inl (refl, (refl, refl))

length-entries : length entries ≡ block_size
length-entries =
    (entry-Stores 0 zero_block (omega arith) length-zero_block (97 ∷ []) 17 (omega arith, tt)
      (omega arith) (omega arith)).0.size

create_file-Created_example :
    (s : Cache) × (create_file store [] (join ((98 ∷ []) ∷ [])) (mounted disk_tree)
      ≡ new_fd 1 (record (mounted s) { info = one_more_inode info }))
    × Created store 1 unused (98 ∷ []) 7 1 entries inode_bitmap disk_tree s
    × OpenResult 1
        (record (mounted s) { info = one_more_inode info })
        (create_file store [] (join ((98 ∷ []) ∷ [])) (mounted disk_tree))
create_file-Created_example =
    create_file-Created store [] (join ((98 ∷ []) ∷ [])) b_pos root 0 vacancy inode_bitmap 1 unused
      (mounted disk_tree) disk_tree-Listed inode_bitmap-Holds one-Lowest unused_stored (omega arith)
      b_pos-Position root_there vacancy-IsHit (omega arith) (omega arith) length-entries
      (omega arith, tt) (omega arith)
