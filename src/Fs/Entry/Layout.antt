-- ===== src/Fs/Entry/Layout.antt =====
-- The directory entries in a block of OS/hw3: what writing or clearing one does to it and to the
-- others.
use kw_home_work.Common.{
  ℕ, zero, suc, ◌+◌, ◌*◌, ◌^◌, ◌<◌, ◌≤◌, ◌≡◌, ◌≢◌, refl, ap, ◌∙◌, List, [], ◌∷◌, arith, length,
  get_or, take, drop, length-drop,
}
use native.Mathlib.Decide.{dec_lt}
use kw_home_work.Disk.{Block, block_size}
use kw_home_work.Bytes.{
  slice, splice, overwrite, length-splice, slice-splice_self, slice-splice_above,
  slice-splice_below, drop-splice_self,
}
use kw_home_work.Bytes.Words.{int_bytes, ints_bytes, ints_of, ints_of-ints_bytes}
use kw_home_work.Fs.Entry.{
  c_string, strncpy, entry_name, entry_inode, set_entry, clear_entry, max_name_len,
  sizeof_dir_entry, num_of_dirent_per_block,
}

abbrev pub HasNoZero : List ℕ → Type 0
HasNoZero [] = Unit {0}
HasNoZero (c ∷ cs) = (c ≢ 0) × HasNoZero cs

length-strncpy : (n : ℕ) (cs : List ℕ) → length (strncpy n cs) ≡ n
unfolding strncpy
length-strncpy zero cs = refl
length-strncpy (suc n) [] = ap suc (length-strncpy n [])
length-strncpy (suc n) (c ∷ cs) = ap suc (length-strncpy n cs)

-- A string shorter than the field reads back.
c_string-strncpy :
    (n : ℕ) (cs xs : List ℕ)
    → HasNoZero cs
    → length cs < n
    → n ≤ length xs
    → c_string (overwrite (strncpy n cs) xs) ≡ cs
unfolding c_string strncpy overwrite
c_string-strncpy zero cs xs h small room = absurd (omega arith)
c_string-strncpy (suc n) cs [] h small room = absurd (omega arith)
c_string-strncpy (suc n) [] (x ∷ xs) h small room = refl
c_string-strncpy (suc n) (c ∷ cs) (x ∷ xs) (ne, h) small room =
    let rest = c_string-strncpy n cs xs h (omega arith) (omega arith) in ground (arith, rest)

c_string-overwrite_zero : (xs : List ℕ) → c_string (overwrite (0 ∷ []) xs) ≡ []
unfolding c_string overwrite
c_string-overwrite_zero [] = refl
c_string-overwrite_zero (x ∷ xs) = refl

-- A string that ends in the first `n` bytes depends on them only.
c_string-take :
    (n : ℕ) (xs ys : List ℕ)
    → take n ys ≡ take n xs
    → length (c_string xs) < n
    → c_string ys ≡ c_string xs
unfolding c_string
c_string-take zero xs ys e small = absurd (omega arith)
c_string-take (suc n) [] [] e small = refl
c_string-take (suc n) [] (y ∷ ys) e small = ground arith
c_string-take (suc n) (x ∷ xs) [] e small = ground arith
c_string-take (suc n) (x ∷ xs) (y ∷ ys) e small = ground (arith, c_string-take n xs ys)

-- The entry `j` has the name and the inode number; the block is whole; every other entry has its
-- inode number, and its name if that ends within its field.
pub record Stores (j : ℕ) (name : List ℕ) (n : ℕ) (e e' : Block) : Type 0 where
  pub size : length e' ≡ block_size
  pub name_at : entry_name e' j ≡ name
  pub inode_at : entry_inode e' j ≡ n
  pub inodes : (k : ℕ) → k ≢ j → entry_inode e' k ≡ entry_inode e k
  pub names :
      (k : ℕ) → k ≢ j → length (entry_name e k) < max_name_len → entry_name e' k ≡ entry_name e k

-- Two writes into the entry `j`: bytes at its start, and four at its inode number.
module _ (j : ℕ) (front : List ℕ) (n : ℕ) (e : Block) (in_block : j < num_of_dirent_per_block)
    (short : length front ≤ max_name_len) (size : length e ≡ block_size) where
  middle : Block
  middle = splice (j * sizeof_dir_entry + max_name_len) (int_bytes n []) e

  both : Block
  both = splice (j * sizeof_dir_entry) front middle

  length-both : length both ≡ block_size
  unfolding both middle
  length-both =
      length-splice (j * sizeof_dir_entry) front middle
      ∙ length-splice (j * sizeof_dir_entry + max_name_len) (int_bytes n []) e
      ∙ size

  -- A part of another entry is unchanged.
  slice-both :
      (k p m : ℕ)
      → k ≢ j
      → k * sizeof_dir_entry ≤ p
      → p + m ≤ k * sizeof_dir_entry + sizeof_dir_entry
      → slice p m both ≡ slice p m e
  unfolding both middle int_bytes
  slice-both k p m ne from to = elim (dec_lt k j) [
    | yes below ↦
        slice-splice_below (j * sizeof_dir_entry) front middle p m (omega arith)
        ∙ slice-splice_below (j * sizeof_dir_entry + max_name_len) (int_bytes n []) e p m
            (omega arith)
    | no above ↦
        slice-splice_above (j * sizeof_dir_entry) front middle p m (omega arith)
        ∙ slice-splice_above (j * sizeof_dir_entry + max_name_len) (int_bytes n []) e p m
            (omega arith)
  ]

  room : max_name_len ≤ length (drop (j * sizeof_dir_entry) middle)
  unfolding middle
  room = omega (
    arith,
    length-drop (j * sizeof_dir_entry) middle,
    length-splice (j * sizeof_dir_entry + max_name_len) (int_bytes n []) e,
    size,
  )

  entry_inode-both : n < 2 ^ 32 → entry_inode both j ≡ n
  unfolding both middle int_bytes entry_inode ints_bytes
  entry_inode-both small =
      ap (λ b. get_or (ints_of b) 0 0)
        (slice-splice_above (j * sizeof_dir_entry) front middle
            (j * sizeof_dir_entry + max_name_len) 4 (omega arith)
          ∙ slice-splice_self (j * sizeof_dir_entry + max_name_len) (int_bytes n []) e
              (omega arith))
      ∙ ap (λ ws. get_or ws 0 0) (ints_of-ints_bytes (n ∷ []) (small, tt))

  both-Stores :
      (name : List ℕ)
      → n < 2 ^ 32
      → c_string (overwrite front (drop (j * sizeof_dir_entry) middle)) ≡ name
      → Stores j name n e both
  unfolding both entry_name entry_inode slice
  both-Stores name small reads = record {
    size = length-both;
    name_at = ap c_string (drop-splice_self (j * sizeof_dir_entry) front middle) ∙ reads;
    inode_at = entry_inode-both small;
    inodes = λ k ne.
        ap (λ b. get_or (ints_of b) 0 0)
          (slice-both k (k * sizeof_dir_entry + max_name_len) 4 ne (omega arith) (omega arith));
    names = λ k ne ends.
        c_string-take max_name_len (drop (k * sizeof_dir_entry) e)
          (drop (k * sizeof_dir_entry) both)
          (slice-both k (k * sizeof_dir_entry) max_name_len ne (omega arith) (omega arith)) ends;
  }

module _ (j : ℕ) (e : Block) (in_block : j < num_of_dirent_per_block)
    (size : length e ≡ block_size) where
  -- In a whole block, `strncpy` of a name shorter than its field and an inode number that fits give the
  -- entry that name and number; clearing it gives it the empty name and number 0. Either way the block
  -- stays whole, and every other entry keeps its number, and its name if that ends within its field.
  pub entry-Stores :
      (name : List ℕ) (n : ℕ)
      → HasNoZero name
      → length name < max_name_len
      → n < 2 ^ 32
      → Stores j name n e (set_entry j name n e) × Stores j [] 0 e (clear_entry j e)
  unfolding set_entry clear_entry both middle
  entry-Stores name n h small fits =
      let front = strncpy max_name_len name in
      let short : length front ≤ max_name_len = omega (arith, length-strncpy max_name_len name) in
      let named = room j front n e in_block short size in
      (
        both-Stores j front n e in_block short size name fits
            (c_string-strncpy max_name_len name (drop (j * sizeof_dir_entry) _) h small named),
        both-Stores j (0 ∷ []) 0 e in_block (omega arith) size [] (omega arith)
            (c_string-overwrite_zero _),
      )
