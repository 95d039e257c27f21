-- ===== src/Cache/Hit.antt =====
-- A hit in OS/hw3/buf.c: the buffer moves to the tail of the LRU list, and a write marks it dirty.
use mathlib.Core.Path.{fun_ext}
use kw_home_work.Common.{
  ℕ, ◌<◌, ◌≡◌, ◌≢◌, refl, true, false, none, some, arith, inl, inr, if◌then◌else◌, count,
  count-snoc, Option-cases, Bool-cases, sym, ◌∙◌, update,
}
use kw_home_work.Disk.{Block, content}
use kw_home_work.Queue.{insert_tail, erase, remove-erase, count-erase}
use kw_home_work.Cache.{
  BufState, is_clean, Cache, find_blkno, buf_find, touch, overwrite, find_buf_in_lru_list,
  find_buf_in_state_list,
}
use kw_home_work.Cache.Valid.{IsValid, Holds, find_blkno-none, find_blkno-some}
use kw_home_work.Cache.View.{view, view-Holds, view_by, view_of_miss}

-- `p` becomes the most recently used buffer.
unfoldable pub moved : ℕ → Cache → Cache
moved p c = record c { lru_list = insert_tail p (erase p c.lru_list) }

-- `p` gets new contents, and is dirty.
unfoldable pub dirtied : ℕ → Block → Cache → Cache
dirtied p block c = record c {
  bufs = update c.bufs p (record (c.bufs p) { mem = block; state = BufState.dirty });
  clean_list = if is_clean (c.bufs p).state then erase p c.clean_list else c.clean_list;
  dirty_list = if is_clean (c.bufs p).state then insert_tail p c.dirty_list else c.dirty_list;
}

module _ {c : Cache} (v : IsValid c) (p : ℕ) (used : 0 < count p c.lru_list) where
  count-moved : (q : ℕ) → count q (moved p c).lru_list ≡ count q c.lru_list
  unfolding moved
  count-moved q =
      omega (arith, count-snoc q p (erase p c.lru_list), count-erase p q c.lru_list used)

  pub moved-IsValid : IsValid (moved p c)
  unfolding moved
  moved-IsValid = record {
    chain = λ q i. ground (arith, v.chain q i, count-moved q);
    on_clean = λ q. ground (arith, v.on_clean q, count-moved q);
    on_dirty = λ q. ground (arith, v.on_dirty q, count-moved q);
    pool = λ q. ground (arith, v.pool q, count-moved q);
    unique = λ q r. ground (arith, v.unique q r, count-moved q, count-moved r);
    coherent = λ q. ground (arith, v.coherent q, count-moved q);
  }

  pub view-moved : (b : ℕ) → view b (moved p c) ≡ view b c
  unfolding view moved buf_find
  view-moved b = refl

  pub dirtied-IsValid : (block : Block) → IsValid (dirtied p block c)
  unfolding dirtied
  dirtied-IsValid block = record {
    chain = λ q i. ground (arith, v.chain q i);
    on_clean =
        λ q. ground (arith, v.on_clean q, v.on_clean p, v.pool q, count-erase p q c.clean_list);
    on_dirty =
        λ q. ground (arith, v.on_dirty q, v.on_clean p, v.pool q, count-snoc q p c.dirty_list);
    pool = λ q. ground (arith, v.pool q);
    unique = λ q r. ground (arith, v.unique q r);
    coherent = λ q. ground (arith, v.coherent q);
  }

  pub dirtied-Holds : (block : Block) (b q : ℕ) → Holds c b q → Holds (dirtied p block c) b q
  unfolding dirtied
  dirtied-Holds block b q k = record { used = k.used; block = ground (arith, k.block) }

  pub view-dirtied_self : (block : Block) → view (c.bufs p).blkno (dirtied p block c) ≡ some block
  unfolding dirtied
  view-dirtied_self block =
      view-Holds (dirtied-IsValid block) (c.bufs p).blkno p
        (dirtied-Holds block (c.bufs p).blkno p (record { used = used; block = refl }))
      ∙ ground arith

  pub touch-moved : (b : ℕ) → (c.bufs p).blkno ≡ b → touch b p c ≡ some (moved p c)
  unfolding touch moved find_buf_in_lru_list
  touch-moved b e = elim (Option-cases (find_blkno c.bufs b c.lru_list)) [
    | inl miss ↦ absurd (find_blkno-none c.bufs b p c.lru_list miss used e)
    | inr (q, hit) ↦ ground (arith, remove-erase p c.lru_list used)
  ]

  mem-dirtied :
      (block : Block) (b q : ℕ)
      → b ≢ (c.bufs p).blkno
      → Holds (dirtied p block c) b q
      → Holds c b q × (some ((dirtied p block c).bufs q).mem ≡ some (c.bufs q).mem)
  unfolding dirtied
  mem-dirtied block b q ne k =
      (record { used = k.used; block = ground (arith, k.block) }, ground (arith, k.block))

  pub view-dirtied_ne :
      (block : Block) (b : ℕ) → b ≢ (c.bufs p).blkno → view b (dirtied p block c) ≡ view b c
  view-dirtied_ne block b ne = view_by (dirtied-IsValid block) b (view b c) held lost
    where
      held :
          (q : ℕ) → Holds (dirtied p block c) b q → some ((dirtied p block c).bufs q).mem ≡ view b c
      held q k = let (k', e) = mem-dirtied block b q ne k in e ∙ sym (view-Holds v b q k')

      lost :
          ((q : ℕ) → Holds (dirtied p block c) b q → ⊥)
          → content (dirtied p block c).disk b ≡ view b c
      lost out = unfold dirtied in sym (view_of_miss v b (λ q k. out q (dirtied-Holds block b q k)))

  -- A buffer in use is on the list of its state, and on no other.
  find_clean :
      is_clean (c.bufs p).state ≡ true
      → (q : ℕ) × (find_blkno c.bufs (c.bufs p).blkno c.clean_list ≡ some q)
  find_clean st = elim (Option-cases (find_blkno c.bufs (c.bufs p).blkno c.clean_list)) [
    | inl miss ↦ absurd (
        find_blkno-none c.bufs (c.bufs p).blkno p c.clean_list miss (ground (arith, v.on_clean p))
          refl)
    | inr hit ↦ hit
  ]

  find_dirty :
      is_clean (c.bufs p).state ≡ false
      → (q : ℕ) × (find_blkno c.bufs (c.bufs p).blkno c.dirty_list ≡ some q)
  find_dirty st = elim (Option-cases (find_blkno c.bufs (c.bufs p).blkno c.dirty_list)) [
    | inl miss ↦ absurd (
        find_blkno-none c.bufs (c.bufs p).blkno p c.dirty_list miss (ground (arith, v.on_dirty p))
          refl)
    | inr hit ↦ hit
  ]

  find_clean_none :
      is_clean (c.bufs p).state ≡ false → find_blkno c.bufs (c.bufs p).blkno c.clean_list ≡ none
  find_clean_none st = elim (Option-cases (find_blkno c.bufs (c.bufs p).blkno c.clean_list)) [
    | inl miss ↦ miss
    | inr (q, hit) ↦
        let f = find_blkno-some c.bufs (c.bufs p).blkno q c.clean_list hit in
        ground (arith, v.on_clean q, v.unique p q used)
  ]

  dirty_still :
      (block : Block)
      → is_clean (c.bufs p).state ≡ false
      → update c.bufs p (record (c.bufs p) { mem = block })
        ≡ update c.bufs p (record (c.bufs p) { mem = block; state = BufState.dirty })
  dirty_still block st = fun_ext λ q. ground arith

  pub overwrite-dirtied : (block : Block) → overwrite p block c ≡ some (dirtied p block c)
  unfolding overwrite find_buf_in_state_list dirtied
  overwrite-dirtied block = elim (Bool-cases (is_clean (c.bufs p).state)) [
    | inl st ↦
        let (q, e) = find_clean st in
        rw (e, overwrite, remove-erase p c.clean_list (ground (arith, v.on_clean p)), st) refl
    | inr st ↦
        let (q, e) = find_dirty st in
        rw (find_clean_none st, overwrite, e, dirty_still block st, st) refl
  ]
