-- ===== src/Cache/Miss.antt =====
-- OS/hw3/buf.c, a miss of `BufRead` and of `BufWrite`: both are `placed` after room is made.
use mathlib.Core.Path.{fun_ext}
use kw_home_work.Common.{ℕ, ◌≡◌, none, some, arith, update, ◌>>=◌}
use kw_home_work.Disk.{Block, dev_read_block}
use kw_home_work.Queue.{erase, remove-erase}
use kw_home_work.Cache.{
  set_buf, Buf, BufState, Cache, find_blkno, buf_find, find_buf_in_lru_list, buf_get_new_buffer,
  buf_insert_to_head, touch, buf_read, load, store, make_room,
}
use kw_home_work.Cache.Valid.{Holds, find_blkno_absent}
use kw_home_work.Cache.Place.{placed}
use kw_home_work.Cache.Room.{Room}

abbrev pub filled : ℕ → BufState → Block → Buf
filled b st m = record { blkno = b; state = st; mem = m }

renamed :
    (f : ℕ → Buf) (p : ℕ) (buf : Buf)
    → update (update f p buf) p (record (update f p buf p) { blkno = buf.blkno }) ≡ update f p buf
renamed f p buf = fun_ext λ q. ground arith

-- A buffer inserted for a block that none held is not on the LRU list, and goes to its tail.
inserted :
    (b p : ℕ) (st : BufState) (m : Block) (c : Cache)
    → find_blkno (update c.bufs p (filled b st m)) b c.lru_list ≡ none
    → touch b p (
        buf_insert_to_head p b st
          (set_buf p (filled b st m) (record c { free_list = erase p c.free_list })))
      ≡ some (placed p (filled b st m) c)
unfolding touch buf_insert_to_head find_buf_in_lru_list placed
inserted b p BufState.clean m c miss = rw (renamed c.bufs p (filled b BufState.clean m), miss)
inserted b p BufState.dirty m c miss = rw (renamed c.bufs p (filled b BufState.dirty m), miss)

mem_inserted :
    (b p : ℕ) (m : Block) (c : Cache)
    → ((buf_insert_to_head p b BufState.clean (set_buf p (filled b BufState.clean m) c)).bufs p).mem
      ≡ m
unfolding buf_insert_to_head
mem_inserted b p m c = ground arith

module _ {c c' : Cache} (r : Room c c') (b : ℕ) (out : (q : ℕ) → Holds c b q → ⊥) where
  not_on_lru :
      (st : BufState) (m : Block)
      → find_blkno (update c'.bufs r.spare (filled b st m)) b c'.lru_list ≡ none
  not_on_lru st m = find_blkno_absent _ b c'.lru_list λ q k e.
      out q (r.held b q (record { used = k; block = ground (arith, r.valid.pool q, r.free) }))

  pub filled-placed :
      (st : BufState) (m : Block)
      → touch b r.spare (
          buf_insert_to_head r.spare b st (
            set_buf r.spare (filled b st m) (record c' { free_list = erase r.spare c'.free_list })))
        ≡ some (placed r.spare (filled b st m) c')
  filled-placed st m = inserted b r.spare st m c' (not_on_lru st m)

module _ {c : Cache} (b : ℕ) (out : (q : ℕ) → Holds c b q → ⊥) {c' : Cache}
    (e : make_room c ≡ some c') (r : Room c c') where
  pub store-placed :
      (block : Block)
      → (store b block c >>= λ (p, c1). touch b p c1)
        ≡ some (placed r.spare (filled b BufState.dirty block) c')
  unfolding store buf_get_new_buffer
  store-placed block =
      rw (e, r.at_head, remove-erase r.spare c'.free_list r.free)
        (filled-placed r b out BufState.dirty block)

  -- The disk after the read has one more access counted, and is otherwise the same.
  pub buf_read-placed :
      (junk : Block)
      → buf_find b c ≡ none
      → let m = (dev_read_block b junk c'.disk).0 in
        buf_read b junk c
        ≡ some (
          m,
          placed r.spare
              (filled b BufState.clean m)
              (record c' { disk = (dev_read_block b junk c'.disk).1 }),
        )
  unfolding buf_read load buf_get_new_buffer
  buf_read-placed junk miss =
      let m = (dev_read_block b junk c'.disk).0 in
      rw (miss, buf_read)
        (rw (e, r.at_head, remove-erase r.spare c'.free_list r.free)
          (rw
            (inserted b r.spare BufState.clean m
              (record c' { disk = (dev_read_block b junk c'.disk).1 })
              (not_on_lru r b out BufState.clean m))
            (rw mem_inserted)))
