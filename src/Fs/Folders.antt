-- ===== src/Fs/Folders.antt =====
-- `MakeDir`, `RemoveDir`, `EnumerateDirStatus` and `GetFileStatus` of OS/hw3/fs.c. A result -1 is
-- `false` or `none`; `MakeDir`, `RemoveDir` and `GetFileStatus` return no value where they succeed.
use kw_home_work.Common.{
  ℕ, zero, suc, ◌+◌, ◌*◌, Bool, true, false, not, ◌||◌, Option, none, some, List, [], ◌∷◌, ◌++◌,
  ◌==◌, if◌then◌else◌, get_or, length,
}
use kw_home_work.Disk.{Block, block_size}
use kw_home_work.Store.{BlockStore}
use kw_home_work.Bitmap.{
  get_free_inode_num, get_free_block_num, set_inode_bitmap, set_block_bitmap, reset_block_bitmap,
}
use kw_home_work.Inode.{Inode, get_inode, put_inode}
use kw_home_work.Fs.{
  Step, ◌>>=◌, ◌>>◌, give, defined, act, number, stored, Mounted, add32, sub32, ptrs, set_ptr,
  with_ptrs, change_info, file_type_dir,
}
use kw_home_work.Fs.Entry.{
  sizeof_dir_entry, num_of_dirent_per_block, max_name_len, entry_name, entry_inode, is_vacant,
  is_named, has_inode, set_entry, put_entry, clear_entry, strncpy,
}
use kw_home_work.Fs.Walk.{Hit, find_entry, get_dir_pos, scan, scan_inode}
use kw_home_work.Fs.Files.{free_inode}

-- Where the loop of `MakeDir` stops: a vacant entry, or a pointer that is 0.
pub data Place : Type 0 where
  entry : Hit → Place
  gap : ℕ → Place

pub record DirEntryInfo : Type 0 where
  pub name : List ℕ
  pub inode_num : ℕ
  pub type : ℕ

module _ (store : BlockStore) where
  open store use {State, buf_read, buf_write}

  unfoldable pub find_place : ℕ → List ℕ → Step State (Option Place)
  unfolding find_entry
  find_place i [] = give none
  find_place i (p ∷ ps) =
      let rest = find_place (i + 1) ps in
      let here = do
        b ← number p
        entries ← buf_read b
        elim (find_entry num_of_dirent_per_block 0 (is_vacant entries)) [
          | none ↦ rest
          | some j ↦
              let h : Hit = record { ptr_idx = i; blkno = b; idx = j; entries = entries } in
              give (some (Place.entry h))
        ]
      in if p == 0 then give (some (Place.gap i)) else here

  -- The body of the loop where it stops: `junk` is what `malloc` left in a new block of entries.
  unfoldable pub add_entry : Block → List ℕ → ℕ → ℕ → Inode → Place → Step State (Unit {0})
  add_entry junk token inode_no cur cur_inode (Place.entry h) =
      act (buf_write h.blkno (set_entry h.idx token inode_no h.entries))
  add_entry junk token inode_no cur cur_inode (Place.gap i) = do
    free ← get_free_block_num store
    b ← defined free
    act (buf_write b (set_entry 0 token inode_no junk))
    act (
        put_inode store cur (
          set_ptr i b (record cur_inode {
            alloc_blocks = add32 cur_inode.alloc_blocks 1;
            size = add32 cur_inode.size block_size;
          })))
    act (set_block_bitmap store b)

  -- The new directory's own block and inode, after the loop.
  unfoldable pub new_dir : Block → ℕ → ℕ → Step (Mounted State) (Unit {0})
  new_dir junk inode_no parent = do
    free ← stored (get_free_block_num store)
    b ← defined free
    stored (
        act (
          buf_write b
            (put_entry 1 (46 ∷ 46 ∷ 0 ∷ []) parent (put_entry 0 (46 ∷ 0 ∷ []) inode_no junk))))
    inode ← stored (get_inode store inode_no)
    stored (
        act (
          put_inode store inode_no (
            with_ptrs (b ∷ 0 ∷ 0 ∷ 0 ∷ 0 ∷ [])
              (record inode { type = file_type_dir; size = block_size; alloc_blocks = 1 }))))
    stored (act (set_block_bitmap store b))
    stored (act (set_inode_bitmap store inode_no))
    change_info store (λ i. record i {
      num_alloc_blocks = add32 i.num_alloc_blocks 1;
      num_free_blocks = sub32 i.num_free_blocks 1;
      num_alloc_inodes = add32 i.num_alloc_inodes 1;
    })

  -- `junk` is the token's buffer, `junk1` a new block of the parent, `junk2` that of the directory.
  unfoldable pub make_dir : List ℕ → Block → Block → List ℕ → Step (Mounted State) Bool
  unfolding find_place add_entry new_dir
  make_dir junk junk1 junk2 name = do
    inode_no ← stored (get_free_inode_num store)
    pos ← stored (get_dir_pos store junk name)
    cur ← number pos.inode_no
    cur_inode ← stored (get_inode store cur)
    place ← stored (find_place 0 (ptrs cur_inode))
    elim place [
      | none ↦ give false
      | some pl ↦ do
        n ← defined inode_no
        stored (add_entry junk1 pos.token n cur cur_inode pl)
        new_dir junk2 n cur
        give true
    ]

  -- The check that a directory is empty: every name is empty or starts with a dot.
  abbrev pub blocks_removal : Block → ℕ → Bool
  blocks_removal entries j =
      not ((get_or entries (j * sizeof_dir_entry) 0 == 46) || is_vacant entries j)

  -- `entries[k].inodeNum != 0`
  abbrev pub in_use : Block → ℕ → Bool
  in_use entries k = not (has_inode 0 entries k)

  -- The entry is cleared; the block is freed if no entry in it has an inode.
  unfoldable pub remove_entry : ℕ → Inode → Hit → Step State (Unit {0})
  remove_entry parent parent_inode h = do
    let entries = clear_entry h.idx h.entries
    act (buf_write h.blkno entries)
    elim (find_entry num_of_dirent_per_block 0 (in_use entries)) [
      | some k ↦ give tt
      | none ↦ do
        act (reset_block_bitmap store h.blkno)
        act (
            put_inode store parent (
              set_ptr h.ptr_idx 0 (record parent_inode {
                size = sub32 parent_inode.size block_size;
                alloc_blocks = sub32 parent_inode.alloc_blocks 1;
              })))
    ]

  unfoldable pub remove_dir : List ℕ → List ℕ → Step (Mounted State) Bool
  unfolding remove_entry
  remove_dir junk name = do
    pos ← stored (get_dir_pos store junk name)
    parent ← number pos.inode_no
    parent_inode ← stored (get_inode store parent)
    child ← stored (scan store (is_named pos.token) 0 (ptrs parent_inode))
    elim child [
      | none ↦ give false
      | some c ↦ do
        cur ← number (entry_inode c.entries c.idx)
        cur_inode ← stored (get_inode store cur)
        full ← stored (scan store blocks_removal 0 (ptrs cur_inode))
        elim full [
          | some f ↦ give false
          | none ↦ do
            hit ← stored (scan store (has_inode cur) 0 (ptrs parent_inode))
            elim hit [
              | none ↦ give false
              | some h ↦ do
                stored (remove_entry parent parent_inode h)
                free_inode store cur cur_inode
                give true
            ]
        ]
    ]

  -- One block in the last loop of `EnumerateDirStatus`, with the rounds left. `acc` is what has been
  -- written to `pDirEntry`; the flag is the early return.
  unfoldable pub list_block :
      ℕ → ℕ → ℕ → Block → List DirEntryInfo → Step State (Bool × List DirEntryInfo)
  list_block zero j max entries acc = give (false, acc)
  list_block (suc n) j max entries acc =
      let skip = list_block n (j + 1) max entries acc in
      let add = do
        k ← number (entry_inode entries j)
        inode ← get_inode store k
        let info : DirEntryInfo = record {
          name = strncpy max_name_len (entry_name entries j);
          inode_num = k;
          type = inode.type;
        }
        let acc1 = acc ++ info ∷ []
        let on = list_block n (j + 1) max entries acc1
        if length acc1 == max then give (true, acc1) else on
      in if is_vacant entries j then skip else add

  unfoldable pub list_dir : List ℕ → ℕ → List DirEntryInfo → Step State (List DirEntryInfo)
  unfolding list_block
  list_dir [] max acc = give acc
  list_dir (p ∷ ps) max acc =
      let skip = list_dir ps max acc in
      let here = do
        b ← number p
        entries ← buf_read b
        (done, acc1) ← list_block num_of_dirent_per_block 0 max entries acc
        elim done [ true ↦ give acc1 | false ↦ list_dir ps max acc1 ]
      in if p == 0 then skip else here

  -- The result is the length of the list; `none` is -1. A list longer than `max` overruns the array,
  -- which the code allows only for `max` 0.
  unfoldable pub enumerate_dir_status :
      List ℕ → List ℕ → ℕ → Step (Mounted State) (Option (List DirEntryInfo))
  unfolding list_dir
  enumerate_dir_status junk name max = do
    pos ← stored (get_dir_pos store junk name)
    hit ← stored (scan_inode store (is_named pos.token) pos.inode_no)
    elim hit [
      | none ↦ give none
      | some h ↦ do
        n ← number (entry_inode h.entries h.idx)
        inode ← stored (get_inode store n)
        listed ← stored (list_dir (ptrs inode) max [])
        give (some listed)
    ]

  -- `FileStatus` has the fields of `Inode`.
  unfoldable pub get_file_status : List ℕ → List ℕ → Step (Mounted State) (Option Inode)
  get_file_status junk name = do
    pos ← stored (get_dir_pos store junk name)
    hit ← stored (scan_inode store (is_named pos.token) pos.inode_no)
    elim hit [
      | none ↦ give none
      | some h ↦ do
        n ← number (entry_inode h.entries h.idx)
        inode ← stored (get_inode store n)
        give (some inode)
    ]
