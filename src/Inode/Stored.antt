-- ===== src/Inode/Stored.antt =====
-- `PutInode` and `GetInode` of OS/hw3/fs_internal.c on the stored inode list.
use kw_home_work.Common.{ℕ, ◌+◌, ◌/◌, ◌%◌, ◌<◌, ◌≡◌, ◌≢◌, ap, ◌∙◌, sym, some, arith, length}
use mathlib.Core.Option.{some-injective}
use native.Mathlib.Decide.{ℕ_discrete}
use kw_home_work.Disk.{Block, block_size}
use kw_home_work.Store.{BlockStore}
use kw_home_work.Inode.{
  Inode, num_of_inode_per_block, inodelist_block_first, write_inode, read_inode, put_inode,
  get_inode,
}
use kw_home_work.Inode.Layout.{Fits, length-write_inode, read-write_inode_self, read-write_inode_ne}

-- The inode list has 64 inodes.
abbrev pub num_of_inodes : ℕ
num_of_inodes = 64

abbrev pub block_of : ℕ → ℕ
block_of n = n / num_of_inode_per_block + inodelist_block_first

module _ (store : BlockStore) where
  open store use {State, IsValid, block, buf_read, buf_write, read_law, write_law}

  -- The blocks of the inode list are stored whole.
  pub record Listed (s : State) : Type 0 where
    pub valid : IsValid s
    pub stored :
        (n : ℕ)
        → n < num_of_inodes
        → (d : Block) × (block (block_of n) s ≡ some d) × (length d ≡ block_size)

  -- The inode `n` of the stored list is `i`.
  abbrev pub IsInode : ℕ → Inode → State → Type 0
  IsInode n i s =
      (d : Block) × (block (block_of n) s ≡ some d)
      × (read_inode (n % num_of_inode_per_block) d ≡ i)

  same_data :
      {a b : ℕ} {s : State} {d e : Block} → block a s ≡ some d → block b s ≡ some e → b ≡ a → d ≡ e
  same_data {s} {d} {e} at at' same =
      some-injective d e (sym at ∙ ap (λ x. block x s) (sym same) ∙ at')

  -- `GetInode` of a number below 64 returns the inode that is stored, and every readable block reads as
  -- before.
  pub get_inode-IsInode :
      (n : ℕ) (i : Inode) (s : State)
      → n < num_of_inodes
      → IsValid s
      → IsInode n i s
      → (s' : State) × (get_inode store n s ≡ some (i, s'))
        × IsValid s'
        × ((x : ℕ) (y : Block) → block x s ≡ some y → block x s' ≡ some y)
  unfolding get_inode
  get_inode-IsInode n i s h v (d, at, e) =
      let (s1, got, v1, kept) = read_law s (block_of n) d v at in
      (s1, rw (got, get_inode) (ap (λ j. some (j, s1)) e), v1, kept)

  -- The list is whole, the inode is stored, and the other inodes and blocks are as before.
  pub record Put (n : ℕ) (i : Inode) (s s' : State) : Type 0 where
    pub listed : Listed s'
    pub stored : IsInode n i s'
    pub inodes : (m : ℕ) (j : Inode) → m ≢ n → IsInode m j s → IsInode m j s'
    pub others : (x : ℕ) (y : Block) → x ≢ block_of n → block x s ≡ some y → block x s' ≡ some y

  -- `PutInode` of a number below 64 and an inode whose fields fit, on a list that is stored whole,
  -- succeeds: the list stays whole, the inode is stored, and no other inode and no other block changes.
  pub put_inode-Put :
      (n : ℕ) (i : Inode) (s : State)
      → n < num_of_inodes
      → Fits i
      → Listed s
      → (s' : State) × (put_inode store n i s ≡ some s') × Put n i s s'
  unfolding put_inode
  put_inode-Put n i s h fits l =
      let (d, at, size) = l.stored n h in
      let k = n % num_of_inode_per_block in
      let (s1, got, v1, kept) = read_law s (block_of n) d l.valid at in
      let (s2, wrote, v2, new, rest) = write_law s1 (block_of n) (write_inode k i d) v1 in
      let others : (x : ℕ) (y : Block) → x ≢ block_of n → block x s ≡ some y → block x s2 ≡ some y =
        λ x y ne e. rest x y ne (kept x y e) in
      (
        s2,
        rw (got, put_inode) wrote,
        record {
          listed = record {
            valid = v2;
            stored = λ m hm. elim (ℕ_discrete (block_of m) (block_of n)) [
              | yes same ↦ (
                write_inode k i d,
                ap (λ b. block b s2) same ∙ new,
                length-write_inode k i d (omega arith) size,
              )
              | no other ↦
                  let (d', at', size') = l.stored m hm in
                  (d', others (block_of m) d' other at', size')
            ];
          };
          stored = (write_inode k i d, new, read-write_inode_self k i d (omega arith) size fits);
          inodes = λ m j ne (d', at', e). elim (ℕ_discrete (block_of m) (block_of n)) [
            | yes same ↦ (
              write_inode k i d,
              ap (λ b. block b s2) same ∙ new,
              read-write_inode_ne k i d (omega arith) size (m % num_of_inode_per_block)
                    (omega arith)
                  ∙ ap (read_inode (m % num_of_inode_per_block)) (same_data at at' same)
                  ∙ e,
            )
            | no other ↦ (d', others (block_of m) d' other at', e)
          ];
          others = others;
        },
      )
