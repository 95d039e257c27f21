-- ===== src/Fs/Entry.antt =====
-- `DirEntry` of OS/hw3/fs.h in a block, and the string operations of OS/hw3/fs.c on its name.
pub mod Layout
use kw_home_work.Common.{
  ℕ, zero, suc, ◌+◌, ◌*◌, Bool, true, false, ◌&&◌, List, [], ◌∷◌, ◌==◌, if◌then◌else◌, get_or, drop,
}
use kw_home_work.Disk.{Block}
use kw_home_work.Bytes.{slice, splice}
use kw_home_work.Bytes.Words.{int_bytes, ints_of}

abbrev pub max_name_len : ℕ
max_name_len = 12

abbrev pub num_of_dirent_per_block : ℕ
num_of_dirent_per_block = 32

abbrev pub sizeof_dir_entry : ℕ
sizeof_dir_entry = 16

-- The string at an address: up to the first zero. It is taken to end with the block at the latest.
unfoldable pub c_string : List ℕ → List ℕ
c_string [] = []
c_string (c ∷ cs) = let rest = c_string cs in if c == 0 then [] else c ∷ rest

-- `strcmp(a, b) == 0` on strings.
unfoldable pub same_string : List ℕ → List ℕ → Bool
same_string [] [] = true
same_string (a ∷ as1) (b ∷ bs) = (a == b) && same_string as1 bs
same_string _ _ = false

-- `strncpy`: at most `n` bytes, filled up with zeros.
unfoldable pub strncpy : ℕ → List ℕ → List ℕ
strncpy zero cs = []
strncpy (suc n) [] = 0 ∷ strncpy n []
strncpy (suc n) (c ∷ cs) = c ∷ strncpy n cs

-- `entries[j].name` as a string, and `entries[j].inodeNum`.
unfoldable pub entry_name : Block → ℕ → List ℕ
unfolding c_string
entry_name entries j = c_string (drop (j * sizeof_dir_entry) entries)

unfoldable pub entry_inode : Block → ℕ → ℕ
unfolding slice ints_of
entry_inode entries j = get_or (ints_of (slice (j * sizeof_dir_entry + max_name_len) 4 entries)) 0 0

-- `strcmp(entries[j].name, token) == 0`
unfoldable pub is_named : List ℕ → Block → ℕ → Bool
unfolding entry_name same_string
is_named token entries j = same_string (entry_name entries j) token

-- `entries[j].name[0] == '\0'`
unfoldable pub is_vacant : Block → ℕ → Bool
is_vacant entries j = get_or entries (j * sizeof_dir_entry) 0 == 0

-- `entries[j].inodeNum == curInodeNo`
unfoldable pub has_inode : ℕ → Block → ℕ → Bool
unfolding entry_inode
has_inode n entries j = entry_inode entries j == n

-- `entries[j].inodeNum = n; strncpy(entries[j].name, token, MAX_NAME_LEN);`
unfoldable pub set_entry : ℕ → List ℕ → ℕ → Block → Block
unfolding splice strncpy int_bytes
set_entry j token n entries =
    splice (j * sizeof_dir_entry) (strncpy max_name_len token)
      (splice (j * sizeof_dir_entry + max_name_len) (int_bytes n []) entries)

-- `entries[j].inodeNum = 0; entries[j].name[0] = '\0';`
unfoldable pub clear_entry : ℕ → Block → Block
unfolding splice int_bytes
clear_entry j entries =
    splice (j * sizeof_dir_entry) (0 ∷ [])
      (splice (j * sizeof_dir_entry + max_name_len) (int_bytes 0 []) entries)

-- An entry whose name is written byte by byte: `.` and `..`.
unfoldable pub put_entry : ℕ → List ℕ → ℕ → Block → Block
unfolding splice int_bytes
put_entry j name n entries =
    splice (j * sizeof_dir_entry) name
      (splice (j * sizeof_dir_entry + max_name_len) (int_bytes n []) entries)
