-- ===== src/Cache/Sync.antt =====
-- `BufSync`, `BufSyncBlock` and `BufInit` of OS/hw3/buf.c.
use kw_home_work.Common.{
  ℕ, ◌+◌, ◌<◌, ◌≡◌, refl, some, List, [], ◌∷◌, arith, inl, inr, length, count, count-cons,
  count-nil, count-snoc, Option-cases, Bool-cases, sym, ◌∙◌, ap, update,
}
use kw_home_work.Disk.{
  Block, content, dev_write_block, content-dev_write_block_self, content-dev_write_block_ne,
}
use kw_home_work.Queue.{insert_tail, erase, remove-erase, count-erase}
use kw_home_work.Cache.{
  BufState, is_clean, Cache, buf_find, sync_one, sync_loop, buf_sync, buf_sync_block,
}
use kw_home_work.Cache.Valid.{IsValid, Holds, buf_find-Holds, buf_find_miss}
use kw_home_work.Cache.View.{view, view-Holds, view_by, view_of_miss}
use kw_home_work.Cache.Room.{Keeps}

-- The dirty buffer `p` written back.
flushed : ℕ → Cache → Cache
flushed p c = record c {
  bufs = update c.bufs p (record (c.bufs p) { state = BufState.clean });
  disk = dev_write_block (c.bufs p).blkno (c.bufs p).mem c.disk;
  dirty_list = erase p c.dirty_list;
  clean_list = insert_tail p c.clean_list;
}

module _ {c : Cache} (v : IsValid c) (p : ℕ) (on : 0 < count p c.dirty_list) where
  sync_one-flushed : sync_one p c ≡ some (flushed p c)
  unfolding sync_one flushed
  sync_one-flushed = rw (remove-erase p c.dirty_list on)

  in_use : 0 < count p c.lru_list
  in_use = ground (arith, v.on_dirty p)

  flushed-IsValid : IsValid (flushed p c)
  unfolding flushed
  flushed-IsValid = record {
    chain = λ q i. ground (arith, v.chain q i);
    on_clean =
        λ q. ground (arith, v.on_clean q, v.on_dirty p, v.pool q, count-snoc q p c.clean_list);
    on_dirty = λ q. ground (arith, v.on_dirty q, v.pool q, count-erase p q c.dirty_list on);
    pool = λ q. ground (arith, v.pool q);
    unique = λ q r. ground (arith, v.unique q r);
    coherent = λ q used. ground (
      arith,
      v.coherent q,
      v.unique p q in_use,
      content-dev_write_block_self (c.bufs p).blkno (c.bufs p).mem c.disk,
      content-dev_write_block_ne (c.bufs p).blkno (c.bufs q).blkno (c.bufs p).mem (c.bufs q).mem
          c.disk,
    );
  }

  Holds-back :
      (b q : ℕ)
      → Holds (flushed p c) b q
      → Holds c b q × (((flushed p c).bufs q).mem ≡ (c.bufs q).mem)
  unfolding flushed
  Holds-back b q k = (record { used = k.used; block = ground (arith, k.block) }, ground arith)

  Holds-flushed : (b q : ℕ) → Holds c b q → Holds (flushed p c) b q
  unfolding flushed
  Holds-flushed b q k = record { used = k.used; block = ground (arith, k.block) }

  view-flushed : Keeps c (flushed p c)
  view-flushed b d h = view_by flushed-IsValid b (some d) held lost
    where
      held : (q : ℕ) → Holds (flushed p c) b q → some ((flushed p c).bufs q).mem ≡ some d
      held q k = let (k', e) = Holds-back b q k in ap some e ∙ sym (view-Holds v b q k') ∙ h

      lost : ((q : ℕ) → Holds (flushed p c) b q → ⊥) → content (flushed p c).disk b ≡ some d
      lost out =
          let miss : (q : ℕ) → Holds c b q → ⊥ = λ q k. out q (Holds-flushed b q k) in
          unfold flushed in
          content-dev_write_block_ne (c.bufs p).blkno b (c.bufs p).mem d c.disk
            (λ e. miss p (record { used = in_use; block = sym e }))
            (sym (view_of_miss v b miss) ∙ h)

  flushed-count : (flushed p c).disk.disk_write_count ≡ c.disk.disk_write_count + 1
  unfolding flushed dev_write_block
  flushed-count = refl

content-flushed :
    (c : Cache) (b p : ℕ)
    → (c.bufs p).blkno ≡ b
    → content (flushed p c).disk b ≡ some (c.bufs p).mem
unfolding flushed
content-flushed c b p e =
    ground (arith, content-dev_write_block_self (c.bufs p).blkno (c.bufs p).mem c.disk)

-- The walk goes on with the rest of the list.
tail_of : (c : Cache) (p : ℕ) (ps : List ℕ) → c.dirty_list ≡ p ∷ ps → (flushed p c).dirty_list ≡ ps
unfolding flushed erase
tail_of c p ps e = rw e (ground arith)

-- With no dirty buffer the disk has all that can be read.
durable :
    {c : Cache}
    → IsValid c
    → c.dirty_list ≡ []
    → (b : ℕ) (d : Block) → view b c ≡ some d
    → content c.disk b ≡ some d
durable {c} v e b d h = elim (Option-cases (buf_find b c)) [
  | inl miss ↦ sym (view_of_miss v b (λ q. buf_find_miss v b q miss)) ∙ h
  | inr (p, hit) ↦
      let k = buf_find-Holds v b p hit in
      let zero_dirty : count p c.dirty_list ≡ 0 = rw e (count-nil p) in
      ground (arith, v.coherent p k.used, v.on_dirty p, view-Holds v b p k, k.used, k.block)
]

-- What a sync promises: nothing that could be read changes, nothing is dirty, and every block is on the disk.
pub record Synced (c c' : Cache) : Type 0 where
  pub valid : IsValid c'
  pub keeps : Keeps c c'
  pub no_dirty : c'.dirty_list ≡ []
  pub writes : c'.disk.disk_write_count ≡ c.disk.disk_write_count + length c.dirty_list

sync_loop-Synced :
    (ps : List ℕ) {c : Cache}
    → IsValid c
    → c.dirty_list ≡ ps
    → (c' : Cache) × (sync_loop ps c ≡ some c') × Synced c c'
unfolding sync_loop
sync_loop-Synced [] {c} v e =
    (c, refl, record { valid = v; keeps = λ b d h. h; no_dirty = e; writes = rw e (omega arith) })
sync_loop-Synced (p ∷ ps) {c} v e =
    let on : 0 < count p c.dirty_list = rw e (ground (arith, count-cons p p ps)) in
    let (c', ran, s) = sync_loop-Synced ps (flushed-IsValid v p on) (tail_of c p ps e) in
    (
      c',
      rw (sync_one-flushed v p on) ran,
      record {
        valid = s.valid;
        keeps = λ b d h. s.keeps b d (view-flushed v p on b d h);
        no_dirty = s.no_dirty;
        writes =
            omega
              (arith, s.writes, flushed-count v p on, ap length (tail_of c p ps e), ap length e);
      },
    )

-- `BufSync` on a well-formed cache succeeds, with one disk write for each dirty buffer; the cache stays
-- well formed with no dirty buffer, and the disk holds every block that was readable.
pub buf_sync-Synced :
    {c : Cache}
    → IsValid c
    → (c' : Cache) × (buf_sync c ≡ some c')
      × Synced c c'
      × ((b : ℕ) (d : Block) → view b c ≡ some d → content c'.disk b ≡ some d)
unfolding buf_sync
buf_sync-Synced {c} v =
    let (c', ran, s) = sync_loop-Synced c.dirty_list v refl in
    (c', ran, s, λ b d h. durable s.valid s.no_dirty b d (s.keeps b d h))

-- `BufSyncBlock` of a cached block of a well-formed cache succeeds; the cache stays well formed, every
-- readable block reads as before, and the disk holds the contents of the buffer.
pub buf_sync_block-content :
    {c : Cache} (b p : ℕ)
    → IsValid c
    → buf_find b c ≡ some p
    → (c' : Cache) × (buf_sync_block b c ≡ some c')
      × IsValid c'
      × Keeps c c'
      × (content c'.disk b ≡ some (c.bufs p).mem)
unfolding buf_sync_block
buf_sync_block-content {c} b p v e =
    let k = buf_find-Holds v b p e in
    elim (Bool-cases (is_clean (c.bufs p).state)) [
      | inl st ↦ (
        c,
        rw (e, buf_sync_block, st) refl,
        v,
        λ x d h. h,
        ground (arith, v.coherent p k.used, k.block),
      )
      | inr st ↦
          let on : 0 < count p c.dirty_list = ground (arith, v.on_dirty p, k.used) in
          (
            flushed p c,
            rw (e, buf_sync_block, st) (sync_one-flushed v p on),
            flushed-IsValid v p on,
            view-flushed v p on,
            content-flushed c b p k.block,
          )
    ]
