-- ===== src/Cache/Ops.antt =====
-- `BufRead` and `BufWrite` of OS/hw3/buf.c, against the contents that a client sees.
use kw_home_work.Common.{
  ℕ, ◌≡◌, ◌≢◌, refl, true, none, some, arith, inl, inr, Option-cases, sym, ◌∙◌,
}
use mathlib.Core.Path.{subst}
use native.Mathlib.Decide.{ℕ_discrete}
use kw_home_work.Disk.{Block, content, dev_read_block}
use kw_home_work.Cache.{BufState, is_clean, Cache, buf_find, buf_read, buf_write}
use kw_home_work.Cache.Valid.{IsValid, Holds, buf_find-Holds, buf_find_miss}
use kw_home_work.Cache.View.{view, view-Holds, view_of_miss}
use kw_home_work.Cache.Place.{placed, placed-IsValid, view-placed_self, view-placed_ne}
use kw_home_work.Cache.Hit.{
  moved, moved-IsValid, view-moved, touch-moved, dirtied, dirtied-IsValid, dirtied-Holds,
  view-dirtied_self, view-dirtied_ne, overwrite-dirtied,
}
use kw_home_work.Cache.Room.{Keeps, Room, make_room-Room}
use kw_home_work.Cache.Miss.{filled, store-placed, buf_read-placed}

module _ (b : ℕ) (junk : Block) where
  counted : Cache → Cache
  counted c = record c { disk = (dev_read_block b junk c.disk).1 }

  counted-IsValid : {c : Cache} → IsValid c → IsValid (counted c)
  unfolding counted dev_read_block content
  counted-IsValid v = record {
    chain = v.chain;
    on_clean = v.on_clean;
    on_dirty = v.on_dirty;
    pool = v.pool;
    unique = v.unique;
    coherent = v.coherent;
  }

  view-counted : (x : ℕ) (c : Cache) → view x (counted c) ≡ view x c
  unfolding counted dev_read_block view content buf_find
  view-counted x c = refl

  content-counted : (c : Cache) → content (counted c).disk b ≡ content c.disk b
  unfolding counted dev_read_block content
  content-counted c = refl

  Room-counted : {c c' : Cache} → Room c c' → Room c (counted c')
  unfolding counted
  Room-counted {c'} r = record {
    valid = counted-IsValid r.valid;
    keeps = λ x y f. view-counted x c' ∙ r.keeps x y f;
    held = λ x q k. r.held x q (record { used = k.used; block = k.block });
    spare = r.spare;
    at_head = r.at_head;
    free = r.free;
  }

  dev_read_block-content :
      (c : Cache) (d : Block) → content c.disk b ≡ some d → (dev_read_block b junk c.disk).0 ≡ d
  unfolding content dev_read_block
  dev_read_block-content c d h = ground arith

buf_read_hit :
    {c : Cache} (b : ℕ) (junk d : Block) (v : IsValid c)
    → view b c ≡ some d
    → (p : ℕ) → buf_find b c ≡ some p
    → buf_read b junk c ≡ some (d, moved p c)
unfolding buf_read
buf_read_hit {c} b junk d v h p e =
    let k = buf_find-Holds v b p e in
    rw (e, buf_read) (rw (touch-moved v p k.used b k.block) (ground (arith, view-Holds v b p k)))

-- After a lookup that misses, room is made, and no buffer holds the block still.
module _ {c : Cache} (v : IsValid c) (b : ℕ) (e : buf_find b c ≡ none) where
  absent : (q : ℕ) → Holds c b q → ⊥
  absent q = buf_find_miss v b q e

  content-Room :
      {c' : Cache} (r : Room c c') (d : Block) → view b c ≡ some d → content c'.disk b ≡ some d
  content-Room r d h = sym (view_of_miss r.valid b (λ q k. absent q (r.held b q k))) ∙ r.keeps b d h

  -- The spare buffer filled for the block.
  filled-IsValid :
      {c' : Cache} (r : Room c c') (st : BufState) (d : Block)
      → (is_clean st ≡ true → content c'.disk b ≡ some d)
      → IsValid (placed r.spare (filled b st d) c')
  filled-IsValid r st d agrees =
      placed-IsValid r.valid r.spare (filled b st d) r.free (λ q k. absent q (r.held b q k)) agrees

  view-filled_self :
      {c' : Cache} (r : Room c c') (st : BufState) (d : Block)
      → (is_clean st ≡ true → content c'.disk b ≡ some d)
      → view b (placed r.spare (filled b st d) c') ≡ some d
  view-filled_self r st d agrees =
      view-placed_self r.valid r.spare (filled b st d) r.free (λ q k. absent q (r.held b q k))
        agrees

  view-filled_ne :
      {c' : Cache} (r : Room c c') (st : BufState) (d : Block)
      → (is_clean st ≡ true → content c'.disk b ≡ some d)
      → (x : ℕ) (y : Block) → x ≢ b
      → view x c ≡ some y
      → view x (placed r.spare (filled b st d) c') ≡ some y
  view-filled_ne r st d agrees x y ne h =
      view-placed_ne r.valid r.spare (filled b st d) r.free (λ q k. absent q (r.held b q k)) agrees
        x ne
      ∙ r.keeps x y h

  buf_read_miss :
      (junk d : Block)
      → view b c ≡ some d
      → (c' : Cache) × (buf_read b junk c ≡ some (d, c')) × IsValid c' × Keeps c c'
  unfolding Room-counted
  buf_read_miss junk d h =
      let (c', made, r) = make_room-Room v in
      let at = content-Room r d h in
      let same = dev_read_block-content b junk c' d at in
      let r' = Room-counted b junk r in
      let new = placed r.spare (filled b BufState.clean d) (counted b junk c') in
      let agrees : is_clean BufState.clean ≡ true → content (counted b junk c').disk b ≡ some d =
        λ _. content-counted b junk c' ∙ at in
      (
        new,
        subst
            (λ m.
              buf_read b junk c
              ≡ some (m, placed r.spare (filled b BufState.clean m) (counted b junk c')))
            same (unfold counted in buf_read-placed b absent made r junk e),
        filled-IsValid r' BufState.clean d agrees,
        λ x y f. elim (ℕ_discrete x b) [
          | yes q ↦
              subst (λ z. view z new ≡ some y) (sym q)
                (view-filled_self r' BufState.clean d agrees
                  ∙ sym h
                  ∙ subst (λ z. view z c ≡ some y) q f)
          | no ne ↦ view-filled_ne r' BufState.clean d agrees x y ne f
        ],
      )

-- On a well-formed cache, `BufRead` of a block that is cached or on the disk returns its contents;
-- the cache stays well formed, and every readable block reads as before.
pub buf_read-view :
    {c : Cache} (b : ℕ) (junk d : Block)
    → IsValid c
    → view b c ≡ some d
    → (c' : Cache) × (buf_read b junk c ≡ some (d, c')) × IsValid c' × Keeps c c'
buf_read-view {c} b junk d v h = elim (Option-cases (buf_find b c)) [
  | inr (p, e) ↦
      let k = buf_find-Holds v b p e in
      (
        moved p c,
        buf_read_hit b junk d v h p e,
        moved-IsValid v p k.used,
        λ x y f. view-moved v p k.used x ∙ f,
      )
  | inl e ↦ buf_read_miss v b e junk d h
]

-- What a write leaves: the block has the new contents, and every other block that could be read is unchanged.
pub record Wrote (b : ℕ) (d : Block) (c c' : Cache) : Type 0 where
  pub valid : IsValid c'
  pub written : view b c' ≡ some d
  pub others : (x : ℕ) (y : Block) → x ≢ b → view x c ≡ some y → view x c' ≡ some y

buf_write_hit :
    {c : Cache} (b : ℕ) (d : Block) (v : IsValid c) (p : ℕ)
    → buf_find b c ≡ some p
    → (c' : Cache) × (buf_write b d c ≡ some c') × Wrote b d c c'
unfolding buf_write
buf_write_hit {c} b d v p e =
    let k = buf_find-Holds v b p e in
    let v' = dirtied-IsValid v p k.used d in
    let k' = dirtied-Holds v p k.used d b p k in
    (
      moved p (dirtied p d c),
      rw (e, buf_write) (rw (overwrite-dirtied v p k.used d) (touch-moved v' p k'.used b k'.block)),
      record {
        valid = moved-IsValid v' p k'.used;
        written =
            view-moved v' p k'.used b
            ∙ subst (λ z. view z (dirtied p d c) ≡ some d) k.block (view-dirtied_self v p k.used d);
        others = λ x y ne h.
            view-moved v' p k'.used x ∙ view-dirtied_ne v p k.used d x (λ q. ne (q ∙ k.block)) ∙ h;
      },
    )

-- `BufWrite` on a well-formed cache succeeds; the cache stays well formed, the block has the new
-- contents, and every other readable block reads as before.
pub buf_write-Wrote :
    {c : Cache} (b : ℕ) (d : Block)
    → IsValid c
    → (c' : Cache) × (buf_write b d c ≡ some c') × Wrote b d c c'
unfolding buf_write
buf_write-Wrote {c} b d v = elim (Option-cases (buf_find b c)) [
  | inr (p, e) ↦ buf_write_hit b d v p e
  | inl e ↦
      let (c', made, r) = make_room-Room v in
      let dirty : is_clean BufState.dirty ≡ true → content c'.disk b ≡ some d =
        λ q. absurd (ground arith) in
      (
        placed r.spare (filled b BufState.dirty d) c',
        rw (e, buf_write) (store-placed b (absent v b e) made r d),
        record {
          valid = filled-IsValid v b e r BufState.dirty d dirty;
          written = view-filled_self v b e r BufState.dirty d dirty;
          others = view-filled_ne v b e r BufState.dirty d dirty;
        },
      )
]
