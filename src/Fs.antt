-- ===== src/Fs.antt =====
-- OS/hw3/fs.h and OS/hw3/fs.c: the file system over stored blocks. What it keeps in memory, and the
-- sequencing of its steps.
pub mod Entry
pub mod Walk
pub mod Files
pub mod Transfer
pub mod Folders
pub mod Format
use kw_home_work.Common.{
  ℕ, zero, suc, ◌+◌, ◌-◌, ◌%◌, ◌^◌, Bool, true, false, Option, none, some, List, [], ◌∷◌, ◌++◌, ltb,
  if◌then◌else◌, get_elem?, get_or, set,
}
use kw_home_work.Disk.{Block}
use kw_home_work.Bytes.Words.{ints_bytes}
use kw_home_work.Store.{BlockStore}
use kw_home_work.Inode.{Inode}

abbrev pub max_fd_entry_max : ℕ
max_fd_entry_max = 64

abbrev pub num_of_direct_block_ptr : ℕ
num_of_direct_block_ptr = 5

abbrev pub filesys_info_block : ℕ
filesys_info_block = 0

abbrev pub file_type_file : ℕ
file_type_file = 0

abbrev pub file_type_dir : ℕ
file_type_dir = 1

pub record File : Type 0 where
  pub file_offset : ℕ
  pub inode_num : ℕ

-- `pOpenFile`: not set yet, freed by `CloseFile`, or a `File` of its own.
pub data FilePtr : Type 0 where
  null freed : FilePtr
  opened : File → FilePtr

pub record FileDesc : Type 0 where
  pub used : Bool
  pub open_file : FilePtr

-- The fields are the bit patterns of `int`s. `behind` is what follows the allocation in memory:
-- `BufWrite` copies a whole block from `pFileSysInfo`.
pub record FileSysInfo : Type 0 where
  pub blocks : ℕ
  pub root_inode_num : ℕ
  pub disk_capacity : ℕ
  pub num_alloc_blocks : ℕ
  pub num_free_blocks : ℕ
  pub num_alloc_inodes : ℕ
  pub block_bitmap_block : ℕ
  pub inode_bitmap_block : ℕ
  pub inode_list_block : ℕ
  pub data_region_block : ℕ
  pub behind : List ℕ

unfoldable pub info_bytes : FileSysInfo → Block
info_bytes i =
    ints_bytes (
      i.blocks ∷ i.root_inode_num ∷ i.disk_capacity ∷ i.num_alloc_blocks ∷ i.num_free_blocks
      ∷ i.num_alloc_inodes ∷ i.block_bitmap_block ∷ i.inode_bitmap_block ∷ i.inode_list_block
      ∷ i.data_region_block ∷ [])
    ++ i.behind

-- The stored blocks, `*pFileSysInfo` and `pFileDesc`.
pub record Mounted (State : Type 0) : Type 0 where
  pub store : State
  pub info : FileSysInfo
  pub file_desc : List FileDesc

-- `int` arithmetic on bit patterns.
abbrev pub add32 : ℕ → ℕ → ℕ
add32 a b = (a + b) % 2 ^ 32

abbrev pub sub32 : ℕ → ℕ → ℕ
sub32 a b = (a + (2 ^ 32 - b % 2 ^ 32)) % 2 ^ 32

-- A step on a state; `none` is a fault.
abbrev pub Step : Type 0 → Type 0 → Type 0
Step S A = S → Option (A × S)

module _ {S A B : Type 0} where
  infixl 5 ◌>>=◌
  abbrev pub ◌>>=◌ : Step S A → (A → Step S B) → Step S B
  ◌>>=◌ m f s = elim (m s) [ none ↦ none | some (a, s') ↦ f a s' ]

module _ {S B : Type 0} where
  infixl 5 ◌>>◌
  abbrev pub ◌>>◌ : Step S (Unit {0}) → Step S B → Step S B
  m >> k = m >>= λ _. k

module _ {S A : Type 0} where
  abbrev pub give : A → Step S A
  give a s = some (a, s)

  -- A -1 where the code goes on to index with it.
  abbrev pub defined : Option A → Step S A
  defined none s = none
  defined (some a) s = some (a, s)

module _ {S : Type 0} where
  abbrev pub act : (S → Option S) → Step S (Unit {0})
  act f s = elim (f s) [ none ↦ none | some s' ↦ some (tt, s') ]

  -- A number that the code indexes with: a negative `int` is a fault.
  abbrev pub number : ℕ → Step S ℕ
  number n = if ltb n (2 ^ 31) then give n else (λ _. none)

module _ {State A : Type 0} where
  abbrev pub stored : Step State A → Step (Mounted State) A
  stored m fs = elim (m fs.store) [ none ↦ none | some (a, s) ↦ some (a, record fs { store = s }) ]

-- `dirBlockPtr` as a list, and the change of one element.
abbrev pub ptrs : Inode → List ℕ
ptrs i = i.ptr0 ∷ i.ptr1 ∷ i.ptr2 ∷ i.ptr3 ∷ i.ptr4 ∷ []

abbrev pub with_ptrs : List ℕ → Inode → Inode
with_ptrs ps i = record i {
  ptr0 = get_or ps 0 0;
  ptr1 = get_or ps 1 0;
  ptr2 = get_or ps 2 0;
  ptr3 = get_or ps 3 0;
  ptr4 = get_or ps 4 0;
}

abbrev pub set_ptr : ℕ → ℕ → Inode → Inode
set_ptr k b i = with_ptrs (set (ptrs i) k b) i

module _ (store : BlockStore) where
  open store use {State, buf_write}

  -- The change of the counters, and `BufWrite(FILESYS_INFO_BLOCK, pFileSysInfo)`.
  unfoldable pub change_info : (FileSysInfo → FileSysInfo) → Step (Mounted State) (Unit {0})
  unfolding info_bytes
  change_info f fs =
      let info = f fs.info in
      stored (act (buf_write filesys_info_block (info_bytes info))) (record fs { info = info })

-- The first descriptor that is not in use.
unfoldable pub free_fd : ℕ → List FileDesc → Option ℕ
free_fd i [] = none
free_fd i (d ∷ ds) = let rest = free_fd (i + 1) ds in if d.used then rest else some i

module _ {State : Type 0} where
  -- The loops at the end of `CreateFile` and `OpenFile`; `none` is the -1 of a full table.
  unfoldable pub new_fd : ℕ → Step (Mounted State) (Option ℕ)
  unfolding free_fd
  new_fd inode_no fs = elim (free_fd 0 fs.file_desc) [
    | none ↦ some (none, fs)
    | some i ↦
        let file : File = record { file_offset = 0; inode_num = inode_no } in
        some (
          some i,
          record fs {
            file_desc =
                set fs.file_desc i (record { used = true; open_file = FilePtr.opened file });
          },
        )
  ]

  -- `pFileDesc[fileDesc].pOpenFile` as a `File`.
  unfoldable pub file_of : ℕ → Step (Mounted State) File
  file_of fd fs = elim (get_elem? fs.file_desc fd) [
    | none ↦ none
    | some d ↦ elim d.open_file [
      | FilePtr.opened file ↦ some (file, fs)
      | FilePtr.null ↦ none
      | FilePtr.freed ↦ none
    ]
  ]

  -- `file->fileOffset += n`
  unfoldable pub advance : ℕ → ℕ → File → Step (Mounted State) (Unit {0})
  advance fd n file fs = elim (get_elem? fs.file_desc fd) [
    | none ↦ none
    | some d ↦
        let moved : File = record file { file_offset = file.file_offset + n } in
        some (
          tt,
          record fs {
            file_desc = set fs.file_desc fd (record d { open_file = FilePtr.opened moved });
          },
        )
  ]
