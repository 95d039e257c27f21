-- ===== src/Cache/Evict.antt =====
-- `processLruListHead` of OS/hw3/buf.c: the least recently used buffer is given up.
use native.Mathlib.Decide.{ℕ_discrete}
use kw_home_work.Common.{
  ℕ, ◌%◌, ◌<◌, ◌≡◌, refl, some, arith, inl, inr, if◌then◌else◌, count, count-snoc, Option-cases,
  sym, ◌∙◌, update,
}
use kw_home_work.Disk.{
  Block, content, dev_write_block, content-dev_write_block_self, content-dev_write_block_ne,
}
use kw_home_work.Queue.{first, insert_tail, erase, remove-erase, count-erase}
use kw_home_work.Cache.{
  is_clean, Cache, find_blkno, buf_find, buf_delete, drop_state, process_lru_list_head,
  max_buflist_num,
}
use kw_home_work.Cache.Valid.{IsValid, Holds, buf_find-Holds, buf_find_miss, buf_find_of_Holds}
use kw_home_work.Cache.View.{view, view-Holds, view_by, view_of_miss}

-- The buffer `p` given up: written to disk if dirty, and moved to the free list.
unfoldable pub evicted : ℕ → Cache → Cache
evicted p c =
    let idx = (c.bufs p).blkno % max_buflist_num in
    record c {
      lru_list = erase p c.lru_list;
      buf_list = update c.buf_list idx (erase p (c.buf_list idx));
      free_list = insert_tail p c.free_list;
      clean_list = if is_clean (c.bufs p).state then erase p c.clean_list else c.clean_list;
      dirty_list = if is_clean (c.bufs p).state then c.dirty_list else erase p c.dirty_list;
      disk =
          if is_clean (c.bufs p).state
          then c.disk
          else dev_write_block (c.bufs p).blkno (c.bufs p).mem c.disk;
    }

module _ {c : Cache} (v : IsValid c) (p : ℕ) (used : 0 < count p c.lru_list) where
  on_chain : 0 < count p (c.buf_list ((c.bufs p).blkno % max_buflist_num))
  on_chain = ground (arith, v.chain p ((c.bufs p).blkno % max_buflist_num))

  pub evicted-IsValid : IsValid (evicted p c)
  unfolding evicted content dev_write_block
  evicted-IsValid = record {
    chain = λ q i. ground (
      arith,
      v.chain q i,
      v.chain p i,
      v.pool q,
      count-erase p q c.lru_list used,
      count-erase p q (c.buf_list i),
      on_chain,
    );
    on_clean = λ q. ground (
      arith,
      v.on_clean q,
      v.on_clean p,
      count-erase p q c.lru_list used,
      count-erase p q c.clean_list,
    );
    on_dirty = λ q. ground (
      arith,
      v.on_dirty q,
      v.on_dirty p,
      count-erase p q c.lru_list used,
      count-erase p q c.dirty_list,
    );
    pool =
        λ q. ground (arith, v.pool q, count-erase p q c.lru_list used, count-snoc q p c.free_list);
    unique = λ q r.
        ground
          (arith, v.unique q r, count-erase p q c.lru_list used, count-erase p r c.lru_list used);
    coherent = λ q.
        ground (arith, v.coherent q, v.unique p q used, v.pool p, count-erase p q c.lru_list used);
  }

  -- The block of the evicted buffer is on the disk then.
  content-evicted_self :
      (b : ℕ) → (c.bufs p).blkno ≡ b → content (evicted p c).disk b ≡ some (c.bufs p).mem
  unfolding evicted
  content-evicted_self b e = ground (
    arith,
    v.coherent p used,
    content-dev_write_block_self (c.bufs p).blkno (c.bufs p).mem c.disk,
  )

  content-evicted_ne :
      (b : ℕ) (d : Block)
      → ((c.bufs p).blkno ≡ b → ⊥)
      → content c.disk b ≡ some d
      → content (evicted p c).disk b ≡ some d
  unfolding evicted
  content-evicted_ne b d ne h =
      ground (arith, content-dev_write_block_ne (c.bufs p).blkno b (c.bufs p).mem d c.disk)

  pub Holds-evicted : (b q : ℕ) → Holds (evicted p c) b q → Holds c b q
  unfolding evicted
  Holds-evicted b q k = record {
    used = omega (arith, k.used, count-erase p q c.lru_list used);
    block = k.block;
  }

  Holds-evicted_ne : (b q : ℕ) → (p ≡ q → ⊥) → Holds c b q → Holds (evicted p c) b q
  unfolding evicted
  Holds-evicted_ne b q ne k = record {
    used = ground (arith, k.used, count-erase p q c.lru_list used);
    block = k.block;
  }

  -- What was readable stays so.
  pub view-evicted : (b : ℕ) (d : Block) → view b c ≡ some d → view b (evicted p c) ≡ some d
  view-evicted b d h = view_by evicted-IsValid b (some d) held lost
    where
      held : (q : ℕ) → Holds (evicted p c) b q → some ((evicted p c).bufs q).mem ≡ some d
      held q k = unfold evicted in sym (view-Holds v b q (Holds-evicted b q k)) ∙ h

      lost : ((q : ℕ) → Holds (evicted p c) b q → ⊥) → content (evicted p c).disk b ≡ some d
      lost out = elim (Option-cases (buf_find b c)) [
        | inr (q, e) ↦
            let k = buf_find-Holds v b q e in
            elim (ℕ_discrete p q) [
              | yes same ↦
                  content-evicted_self b (ground (arith, k.block))
                  ∙ ground (arith, view-Holds v b q k)
              | no ne ↦ absurd (out q (Holds-evicted_ne b q ne k))
            ]
        | inl e ↦
            content-evicted_ne b d (λ s. buf_find_miss v b p e (record { used = used; block = s }))
              (sym (view_of_miss v b (λ q. buf_find_miss v b q e)) ∙ h)
      ]

module _ {c : Cache} (v : IsValid c) where
  -- A buffer in use is what the code finds on its own hash chain, so `BufDelete` takes that one.
  pub process_lru_list_head-evicted :
      (p : ℕ)
      → first c.lru_list ≡ some p
      → 0 < count p c.lru_list
      → process_lru_list_head c ≡ some (evicted p c)
  unfolding process_lru_list_head buf_delete drop_state evicted
  process_lru_list_head-evicted p e used = ground (
    arith,
    e,
    found,
    remove-erase p c.lru_list used,
    remove-erase p (c.buf_list ((c.bufs p).blkno % max_buflist_num)) (on_chain v p used),
    remove-erase p c.clean_list,
    remove-erase p c.dirty_list,
    v.on_clean p,
    v.on_dirty p,
  )
    where
      found :
          find_blkno c.bufs (c.bufs p).blkno (c.buf_list ((c.bufs p).blkno % max_buflist_num))
          ≡ some p
      found =
          unfold buf_find in
          buf_find_of_Holds v (c.bufs p).blkno p (record { used = used; block = refl })
