-- ===== src/Tests/Trees.antt =====
-- Paths, directory entries and directories of OS/hw3/fs.c on a small tree: the root directory has the
-- entry `a` for inode 17.
use kw_home_work.Common.{ℕ, ◌≤◌, ◌≡◌, inl, inr, refl, true, some, List, [], ◌∷◌, arith, length}
use kw_home_work.Disk.{Block, zero_block}
use kw_home_work.Cache.{Cache}
use kw_home_work.Cache.Valid.{IsValid}
use kw_home_work.Cache.View.{view}
use kw_home_work.Bytes.{splice, overwrite, slice}
use kw_home_work.Bytes.Words.{int_bytes, ints_of}
use kw_home_work.Inode.{Inode, put_inode}
use kw_home_work.Inode.Stored.{Put, put_inode-Put}
use kw_home_work.Fs.{ptrs}
use kw_home_work.Fs.Entry.{
  c_string, same_string, strncpy, entry_name, entry_inode, is_named, set_entry, clear_entry,
}
use kw_home_work.Fs.Entry.Layout.{Stores, entry-Stores}
use kw_home_work.Fs.Walk.{Hit, DirPos, tokens, tokens_from, scan, get_dir_pos}
use kw_home_work.Fs.Walk.Tokens.{AreNames, join, tokens-join}
use kw_home_work.Fs.Walk.Search.{IsHit, Searched, scan-Searched}
use kw_home_work.Fs.Walk.Paths.{IsDir, Position, Walked, get_dir_pos-Walked}
use kw_home_work.Tests.Blocks.{store, start, listed, length-zero_block}

-- The names of the path `/a/bc`.
abbrev names : List (List ℕ)
names = (97 ∷ []) ∷ (98 ∷ 99 ∷ []) ∷ []

names-AreNames : AreNames names
names-AreNames =
    (ground arith, (omega arith, tt), (ground arith, (omega arith, (omega arith, tt)), tt))

names_short : length (join names) ≤ 99
unfolding join
names_short = omega arith

tokens-join_example : tokens (join names) ≡ names
tokens-join_example = tokens-join names names-AreNames names_short

entry-Stores_example :
    Stores 3 (97 ∷ []) 17 zero_block (set_entry 3 (97 ∷ []) 17 zero_block)
    × Stores 3 [] 0 zero_block (clear_entry 3 zero_block)
entry-Stores_example =
    entry-Stores 3 zero_block (omega arith) length-zero_block (97 ∷ []) 17 (omega arith, tt)
      (omega arith) (omega arith)

abbrev pub root : Inode
root = record {
  alloc_blocks = 1;
  size = 512;
  type = 1;
  ptr0 = 7;
  ptr1 = 0;
  ptr2 = 0;
  ptr3 = 0;
  ptr4 = 0;
}

-- The root's block.
abbrev pub entries : Block
entries = set_entry 0 (97 ∷ []) 17 zero_block

-- The root is stored, and then its block.
pub after_root : (s : Cache) × (put_inode store 0 root start ≡ some s) × Put store 0 root start s
after_root = put_inode-Put store 0 root start (omega arith) (omega arith) listed

unfoldable pub tree : Cache
tree = (store.write_law after_root.0 7 entries after_root.2.listed.valid).0

pub tree-IsValid : IsValid tree
unfolding tree
tree-IsValid = (store.write_law after_root.0 7 entries after_root.2.listed.valid).2

pub entries_stored : view 7 tree ≡ some entries
unfolding tree
entries_stored = (store.write_law after_root.0 7 entries after_root.2.listed.valid).3

pub root_stored : IsDir store 0 root tree
unfolding tree
root_stored =
    let law = store.write_law after_root.0 7 entries after_root.2.listed.valid in
    let (d, at, e) = after_root.2.stored in
    record {
      in_list = omega arith;
      stored = (d, law.4 3 d (omega arith) at, e);
      readable = (
        inr (omega arith, omega arith, entries, entries_stored),
        (inl refl, (inl refl, (inl refl, (inl refl, tt)))),
      );
    }

scan-Searched_example :
    Searched store
      (is_named (97 ∷ []))
      0
      (ptrs root)
      tree
      (scan store (is_named (97 ∷ [])) 0 (ptrs root) tree)
scan-Searched_example =
    scan-Searched store (is_named (97 ∷ [])) (ptrs root) tree tree-IsValid root_stored.readable

abbrev pub hit : Hit
hit = record { ptr_idx = 0; blkno = 7; idx = 0; entries = entries }

pub hit-IsHit : IsHit store (is_named (97 ∷ [])) 7 tree hit
unfolding is_named entry_name c_string same_string set_entry splice overwrite strncpy int_bytes
    zero_block
hit-IsHit = record {
  nonzero = omega arith;
  same = refl;
  stored = entries_stored;
  in_block = omega arith;
  passes = refl;
  first = λ k h. absurd (omega arith);
}

abbrev pos : DirPos
pos = record { found = true; inode_no = 17; token = 98 ∷ 99 ∷ [] }

pos-Position : Position store tree [] (join names) pos
unfolding tokens tokens_from join entry_inode ints_of slice set_entry splice overwrite strncpy
    int_bytes zero_block
pos-Position = inl (refl, (root, root_stored, (hit, (0, hit-IsHit), (refl, refl))))

get_dir_pos-Walked_example : Walked store pos tree (get_dir_pos store [] (join names) tree)
get_dir_pos-Walked_example =
    get_dir_pos-Walked store [] (join names) pos tree tree-IsValid pos-Position
