-- ===== src/Cache/Init.antt =====
-- `BufInit` of OS/hw3/buf.c.
use kw_home_work.Common.{
  ℕ, zero, suc, ◌+◌, ◌≡◌, refl, [], arith, ◌&&◌, ltb, leb, if◌then◌else◌, count, count-nil,
  count-snoc, ◌∙◌, ap,
}
use kw_home_work.Disk.{content}
use kw_home_work.Queue.{insert_tail}
use kw_home_work.Cache.{Cache, set_buf, init_loop, buf_init, max_buf_num}
use kw_home_work.Cache.Valid.{IsValid, Holds}
use kw_home_work.Cache.View.{view, view_of_miss}

-- What a round changes.
record Filled (n i : ℕ) (c c' : Cache) : Type 0 where
  disk : c'.disk ≡ c.disk
  chains : c'.buf_list ≡ c.buf_list
  clean_list : c'.clean_list ≡ c.clean_list
  dirty_list : c'.dirty_list ≡ c.dirty_list
  lru_list : c'.lru_list ≡ c.lru_list
  free :
      (p : ℕ)
      → count p c'.free_list ≡ count p c.free_list + (if leb i p && ltb p (i + n) then 1 else 0)

init_loop-Filled : (n i : ℕ) (c : Cache) → Filled n i c (init_loop n i c)
unfolding init_loop
init_loop-Filled zero i c = record {
  disk = refl;
  chains = refl;
  clean_list = refl;
  dirty_list = refl;
  lru_list = refl;
  free = λ p. ground arith;
}
init_loop-Filled (suc n) i c =
    let c1 =
      set_buf i (record (c.bufs i) { blkno = i })
        (record c { free_list = insert_tail i c.free_list }) in
    let f = init_loop-Filled n (i + 1) c1 in
    record {
      disk = f.disk;
      chains = f.chains;
      clean_list = f.clean_list;
      dirty_list = f.dirty_list;
      lru_list = f.lru_list;
      free = λ p. ground (arith, f.free p, count-snoc p i c.free_list);
    }

-- With every queue empty but the free list, the cache is well formed and holds no block.
module _ (c : Cache) (chains : (i : ℕ) → c.buf_list i ≡ []) (cleans : c.clean_list ≡ [])
    (dirties : c.dirty_list ≡ []) (lru : c.lru_list ≡ []) where
  idle : (q : ℕ) → count q c.lru_list ≡ 0
  idle q = rw lru (count-nil q)

  idle-IsValid : ((p : ℕ) → count p c.free_list ≡ (if ltb p max_buf_num then 1 else 0)) → IsValid c
  idle-IsValid free = record {
    chain = λ q i. ground (arith, idle q, ap (count q) (chains i), count-nil q);
    on_clean = λ q. ground (arith, idle q, ap (count q) cleans, count-nil q);
    on_dirty = λ q. ground (arith, idle q, ap (count q) dirties, count-nil q);
    pool = λ q. ground (arith, idle q, free q);
    unique = λ q r. ground (arith, idle q);
    coherent = λ q. ground (arith, idle q);
  }

  idle-Holds : (b q : ℕ) → Holds c b q → ⊥
  idle-Holds b q k = ground (arith, k.used, idle q)

-- After `BufInit` the cache is well formed, and every block shows what the disk holds.
pub buf_init-IsValid :
    (c : Cache) → IsValid (buf_init c) × ((b : ℕ) → view b (buf_init c) ≡ content c.disk b)
unfolding buf_init
buf_init-IsValid c =
    let start = record c {
      buf_list = λ _. [];
      clean_list = [];
      dirty_list = [];
      free_list = [];
      lru_list = [];
    } in
    let f = init_loop-Filled max_buf_num 0 start in
    let chains : (i : ℕ) → (init_loop max_buf_num 0 start).buf_list i ≡ [] =
      λ i. ap (λ g. g i) f.chains in
    let v =
      idle-IsValid (init_loop max_buf_num 0 start) chains f.clean_list f.dirty_list f.lru_list
        (λ p. ground (arith, f.free p, count-nil p)) in
    (
      v,
      λ b.
          view_of_miss v b (
            idle-Holds (init_loop max_buf_num 0 start) chains f.clean_list f.dirty_list f.lru_list
              b)
          ∙ ap (λ d. content d b) f.disk,
    )
