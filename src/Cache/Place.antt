-- ===== src/Cache/Place.antt =====
-- A miss in OS/hw3/buf.c: a buffer from the free list is given to a block.
use kw_home_work.Common.{
  ℕ, ◌%◌, ◌<◌, ◌≡◌, ◌≢◌, true, some, arith, if◌then◌else◌, count, count-cons, count-snoc, sym, ◌∙◌,
  ap, update,
}
use kw_home_work.Disk.{content}
use kw_home_work.Queue.{insert_head, insert_tail, erase, count-erase}
use kw_home_work.Cache.{Buf, is_clean, Cache, max_buflist_num}
use kw_home_work.Cache.Valid.{IsValid, Holds}
use kw_home_work.Cache.View.{view, view-Holds, view_by, view_of_miss}

-- The free buffer `p` becomes the most recently used one, with the contents `buf`.
unfoldable pub placed : ℕ → Buf → Cache → Cache
placed p buf c =
    let idx = buf.blkno % max_buflist_num in
    record c {
      bufs = update c.bufs p buf;
      free_list = erase p c.free_list;
      buf_list = update c.buf_list idx (insert_head p (c.buf_list idx));
      clean_list = if is_clean buf.state then insert_tail p c.clean_list else c.clean_list;
      dirty_list = if is_clean buf.state then c.dirty_list else insert_tail p c.dirty_list;
      lru_list = insert_tail p c.lru_list;
    }

module _ {c : Cache} (v : IsValid c) (p : ℕ) (buf : Buf) (free : 0 < count p c.free_list)
    (absent : (q : ℕ) → Holds c buf.blkno q → ⊥)
    (agrees : is_clean buf.state ≡ true → content c.disk buf.blkno ≡ some buf.mem) where
  unused : count p c.lru_list ≡ 0
  unused = ground (arith, v.pool p)

  not-held : (q : ℕ) → 0 < count q c.lru_list → (c.bufs q).blkno ≡ buf.blkno → ⊥
  not-held q k e = absent q (record { used = k; block = e })

  pub placed-IsValid : IsValid (placed p buf c)
  unfolding placed
  placed-IsValid = record {
    chain = λ q i. ground (
      arith,
      v.chain q i,
      unused,
      count-cons q p (c.buf_list (buf.blkno % max_buflist_num)),
      count-snoc q p c.lru_list,
    );
    on_clean = λ q.
        ground
          (arith, v.on_clean q, unused, count-snoc q p c.clean_list, count-snoc q p c.lru_list);
    on_dirty = λ q.
        ground
          (arith, v.on_dirty q, unused, count-snoc q p c.dirty_list, count-snoc q p c.lru_list);
    pool =
        λ q. ground (arith, v.pool q, count-erase p q c.free_list free, count-snoc q p c.lru_list);
    unique = λ q r. ground (
      arith,
      v.unique q r,
      count-snoc q p c.lru_list,
      count-snoc r p c.lru_list,
      not-held q,
      not-held r,
    );
    coherent = λ q. ground (arith, v.coherent q, agrees, count-snoc q p c.lru_list);
  }

  pub placed-Holds : Holds (placed p buf c) buf.blkno p
  unfolding placed
  placed-Holds = record { used = ground (arith, count-snoc p p c.lru_list); block = ground arith }

  pub view-placed_self : view buf.blkno (placed p buf c) ≡ some buf.mem
  unfolding placed
  view-placed_self = view-Holds placed-IsValid buf.blkno p placed-Holds ∙ ground arith

  Holds-placed : (b q : ℕ) → b ≢ buf.blkno → Holds (placed p buf c) b q → Holds c b q
  unfolding placed
  Holds-placed b q ne k = record {
    used = ground (arith, k.used, k.block, count-snoc q p c.lru_list);
    block = ground (arith, k.block);
  }

  Holds-still : (b q : ℕ) → Holds c b q → Holds (placed p buf c) b q
  unfolding placed
  Holds-still b q k = record {
    used = ground (arith, k.used, count-snoc q p c.lru_list);
    block = ground (arith, k.used, k.block, unused);
  }

  mem-placed :
      (b q : ℕ)
      → b ≢ buf.blkno
      → Holds (placed p buf c) b q
      → ((placed p buf c).bufs q).mem ≡ (c.bufs q).mem
  unfolding placed
  mem-placed b q ne k = ground (arith, k.block)

  pub view-placed_ne : (b : ℕ) → b ≢ buf.blkno → view b (placed p buf c) ≡ view b c
  view-placed_ne b ne = view_by placed-IsValid b (view b c) held lost
    where
      held : (q : ℕ) → Holds (placed p buf c) b q → some ((placed p buf c).bufs q).mem ≡ view b c
      held q k = ap some (mem-placed b q ne k) ∙ sym (view-Holds v b q (Holds-placed b q ne k))

      lost : ((q : ℕ) → Holds (placed p buf c) b q → ⊥) → content (placed p buf c).disk b ≡ view b c
      lost out = unfold placed in sym (view_of_miss v b (λ q k. out q (Holds-still b q k)))
