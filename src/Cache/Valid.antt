-- ===== src/Cache/Valid.antt =====
-- The invariant of the buffer cache (OS/hw3/buf.c), as equations between the numbers of times that
-- a buffer stands on each queue, and what a lookup by block number means under it.
use kw_home_work.Common.{
  ℕ, ◌+◌, ◌%◌, ◌<◌, ◌≡◌, true, none, some, List, arith, ◌==◌, ltb, if◌then◌else◌, count,
  Option-cases, inl, inr,
}
use kw_home_work.Disk.{content}
use kw_home_work.Queue.{find_by-some, find_by-none, find_by_absent}
use kw_home_work.Cache.{Buf, is_clean, Cache, find_blkno, buf_find, max_buf_num, max_buflist_num}

-- A buffer in use is on the LRU list once, on the hash chain of its block, and on the list of its
-- state; the others are on the free list. A block has one buffer, and a clean one agrees with the disk.
pub record IsValid (c : Cache) : Type 0 where
  pub chain :
      (p i : ℕ)
      → count p (c.buf_list i)
        ≡ (if (c.bufs p).blkno % max_buflist_num == i then count p c.lru_list else 0)
  pub on_clean :
      (p : ℕ) → count p c.clean_list ≡ (if is_clean (c.bufs p).state then count p c.lru_list else 0)
  pub on_dirty :
      (p : ℕ) → count p c.dirty_list ≡ (if is_clean (c.bufs p).state then 0 else count p c.lru_list)
  pub pool :
      (p : ℕ) → count p c.free_list + count p c.lru_list ≡ (if ltb p max_buf_num then 1 else 0)
  pub unique :
      (p q : ℕ)
      → 0 < count p c.lru_list
      → 0 < count q c.lru_list
      → (c.bufs p).blkno ≡ (c.bufs q).blkno
      → p ≡ q
  pub coherent :
      (p : ℕ)
      → 0 < count p c.lru_list
      → is_clean (c.bufs p).state ≡ true
      → content c.disk (c.bufs p).blkno ≡ some (c.bufs p).mem

-- The buffer `p` holds block `b`.
pub record Holds (c : Cache) (b p : ℕ) : Type 0 where
  pub used : 0 < count p c.lru_list
  pub block : (c.bufs p).blkno ≡ b

-- A walk finds a buffer of the queue with the block number,
pub find_blkno-some :
    (bufs : ℕ → Buf) (b p : ℕ) (ps : List ℕ)
    → find_blkno bufs b ps ≡ some p
    → (0 < count p ps) × ((bufs p).blkno ≡ b)
unfolding find_blkno
find_blkno-some bufs b p ps = find_by-some (λ q. (bufs q).blkno) b p ps

-- finds none only if the queue has none,
pub find_blkno-none :
    (bufs : ℕ → Buf) (b p : ℕ) (ps : List ℕ)
    → find_blkno bufs b ps ≡ none
    → 0 < count p ps
    → (bufs p).blkno ≡ b
    → ⊥
unfolding find_blkno
find_blkno-none bufs b p ps = find_by-none (λ q. (bufs q).blkno) b p ps

-- and finds none if the queue has none.
pub find_blkno_absent :
    (bufs : ℕ → Buf) (b : ℕ) (ps : List ℕ)
    → ((q : ℕ) → 0 < count q ps → (bufs q).blkno ≡ b → ⊥)
    → find_blkno bufs b ps ≡ none
unfolding find_blkno
find_blkno_absent bufs b ps = find_by_absent (λ q. (bufs q).blkno) b ps

module _ {c : Cache} (v : IsValid c) where
  pub buf_find-Holds : (b p : ℕ) → buf_find b c ≡ some p → Holds c b p
  unfolding buf_find
  buf_find-Holds b p h =
      let f = find_blkno-some c.bufs b p (c.buf_list (b % max_buflist_num)) h in
      ground (arith, v.chain p (b % max_buflist_num))

  pub buf_find_miss : (b p : ℕ) → buf_find b c ≡ none → Holds c b p → ⊥
  unfolding buf_find
  buf_find_miss b p h k =
      find_blkno-none c.bufs b p (c.buf_list (b % max_buflist_num)) h
        (ground (arith, v.chain p (b % max_buflist_num))) k.block

  -- The lookup finds the buffer that holds the block.
  pub buf_find_of_Holds : (b p : ℕ) → Holds c b p → buf_find b c ≡ some p
  buf_find_of_Holds b p k = elim (Option-cases (buf_find b c)) [
    | inl e ↦ absurd (buf_find_miss b p e k)
    | inr (q, e) ↦ let k' = buf_find-Holds b q e in ground (arith, v.unique p q k.used k'.used)
  ]
