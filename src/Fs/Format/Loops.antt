-- ===== src/Fs/Format/Loops.antt =====
-- The loops of `CreateFileSystem` in OS/hw3/fs.c: over all blocks, and over the block bitmap.
use kw_home_work.Common.{
  ℕ, zero, suc, ◌+◌, ◌*◌, ◌<◌, ◌≤◌, ◌≡◌, ◌⊎◌, inl, inr, refl, Bool, not, Option, some, arith,
}
use native.Mathlib.Decide.{ℕ_discrete}
use kw_home_work.Disk.{Block, block_size}
use kw_home_work.Store.{BlockStore}
use kw_home_work.Bitmap.{block_bitmap_block_num}
use kw_home_work.Bitmap.Search.{is_free}
use kw_home_work.Bitmap.Stored.{Holds, Others, Marked}
use kw_home_work.Fs.{◌>>=◌, act}
use kw_home_work.Fs.Format.{each}

module _ (store : BlockStore) where
  open store use {State, IsValid, block, buf_write, write_law}

  -- After writing the blocks `i` to `i + n - 1`.
  pub record Filled (n i : ℕ) (f : ℕ → Block) (s s' : State) : Type 0 where
    pub valid : IsValid s'
    pub inside : (x : ℕ) → i ≤ x → x < i + n → block x s' ≡ some (f x)
    pub outside :
        (x : ℕ) (y : Block) → (x < i) ⊎ (i + n ≤ x) → block x s ≡ some y → block x s' ≡ some y

  pub each-Filled :
      (n i : ℕ) (f : ℕ → Block) (s : State)
      → IsValid s
      → (s' : State) × (each store n i (λ x. act (buf_write x (f x))) s ≡ some (tt, s'))
        × Filled n i f s s'
  unfolding each
  each-Filled zero i f s v = (
    s,
    refl,
    record { valid = v; inside = λ x from to. absurd (omega arith); outside = λ x y out e. e },
  )
  each-Filled (suc n) i f s v =
      let (s1, wrote, v1, new, rest) = write_law s i (f i) v in
      let (s2, ran, l) = each-Filled n (i + 1) f s1 v1 in
      (
        s2,
        rw (wrote, ◌>>=◌, each) ran,
        record {
          valid = l.valid;
          inside = λ x from to. elim (ℕ_discrete x i) [
            | yes same ↦ rw same (l.outside i (f i) (inl (omega arith)) new)
            | no other ↦ l.inside x (omega arith) (omega arith)
          ];
          outside = λ x y out e. elim out [
            | inl below ↦ l.outside x y (inl (omega arith)) (rest x y (omega arith) e)
            | inr above ↦ l.outside x y (inr (omega arith)) (rest x y (omega arith) e)
          ];
        },
      )

  -- After marking the numbers `i` to `i + n - 1` of the block bitmap.
  pub record MarkedAll (n i : ℕ) (taken : Bool) (d : Block) (s s' : State) : Type 0 where
    pub bitmap : Block
    pub holds : Holds store block_bitmap_block_num bitmap s'
    pub inside : (j : ℕ) → i ≤ j → j < i + n → is_free j bitmap ≡ not taken
    pub outside : (j : ℕ) → (j < i) ⊎ (i + n ≤ j) → is_free j bitmap ≡ is_free j d
    pub others : Others store block_bitmap_block_num s s'

  -- What one round does.
  abbrev pub Marks : Bool → (ℕ → State → Option State) → Type 0
  Marks taken f =
      (n : ℕ) (d : Block) (s : State)
      → n < 8 * block_size
      → Holds store block_bitmap_block_num d s
      → Marked store block_bitmap_block_num n taken d s (f n s)

  pub each-MarkedAll :
      (taken : Bool) (f : ℕ → State → Option State)
      → Marks taken f
      → (n i : ℕ) (d : Block) (s : State) → i + n ≤ 8 * block_size
      → Holds store block_bitmap_block_num d s
      → (s' : State) × (each store n i (λ x. act (f x)) s ≡ some (tt, s'))
        × MarkedAll n i taken d s s'
  unfolding each
  each-MarkedAll taken f marks zero i d s h holds = (
    s,
    refl,
    record {
      bitmap = d;
      holds = holds;
      inside = λ j from to. absurd (omega arith);
      outside = λ j out. refl;
      others = λ x y ne e. e;
    },
  )
  each-MarkedAll taken f marks (suc n) i d s h holds =
      let m = marks i d s (omega arith) holds in
      let (s2, ran, l) =
        each-MarkedAll taken f marks n (i + 1) m.bitmap m.after (omega arith) m.becomes.holds in
      (
        s2,
        rw (m.ran, ◌>>=◌, each) ran,
        record {
          bitmap = l.bitmap;
          holds = l.holds;
          inside = λ j from to. elim (ℕ_discrete i j) [
            | yes same ↦
                let here = m.free j in
                let kept = l.outside j (inl (omega arith)) in ground (arith, here, kept)
            | no other ↦ l.inside j (omega arith) (omega arith)
          ];
          outside = λ j out. elim out [
            | inl below ↦
                let here = m.free j in
                let kept = l.outside j (inl (omega arith)) in ground (arith, here, kept)
            | inr above ↦
                let here = m.free j in
                let kept = l.outside j (inr (omega arith)) in ground (arith, here, kept)
          ];
          others = λ x y ne e. l.others x y ne (m.becomes.others x y ne e);
        },
      )
