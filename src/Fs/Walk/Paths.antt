-- ===== src/Fs/Walk/Paths.antt =====
-- `getDirPos` of OS/hw3/fs.c: the walk down the directories that the names of a path lead through.
use kw_home_work.Common.{
  ℕ, ◌^◌, ◌<◌, ◌≡◌, ◌⊎◌, inl, inr, refl, ap, sym, ◌∙◌, Bool, true, false, Option, some, List, [],
  ◌∷◌, arith, ltb,
}
use kw_home_work.Disk.{Block}
use kw_home_work.Store.{BlockStore}
use kw_home_work.Inode.{Inode}
use kw_home_work.Inode.Stored.{IsInode, num_of_inodes, get_inode-IsInode}
use kw_home_work.Fs.{◌>>=◌, ptrs}
use kw_home_work.Fs.Entry.{entry_inode, is_named}
use kw_home_work.Fs.Walk.{Hit, DirPos, scan_inode, walk, tokens, get_dir_pos}
use kw_home_work.Fs.Walk.Search.{
  Same, AreReadable, Missing, Reaches, Searched, scan_from, reached, missed,
}

module _ (store : BlockStore) where
  open store use {State, IsValid, block}

  -- The inode is stored, and its pointers are 0 or lead to readable blocks.
  pub record IsDir (n : ℕ) (i : Inode) (s : State) : Type 0 where
    pub in_list : n < num_of_inodes
    pub stored : IsInode store n i s
    pub readable : AreReadable store (ptrs i) s

  -- The search of a directory, in a state that reads as `s0`.
  pub scan_inode-Searched :
      (test : Block → ℕ → Bool) (n : ℕ) (i : Inode) (s0 s : State)
      → IsDir n i s0
      → IsValid s
      → Same store s0 s
      → Searched store test 0 (ptrs i) s0 (scan_inode store test n s)
  unfolding scan_inode
  scan_inode-Searched test n i s0 s dir v k =
      let (d, at, e) = dir.stored in
      let (s1, got, v1, kept) = get_inode-IsInode store n i s dir.in_list v (d, k _ d at, e) in
      let found =
        scan_from store test s0 0 (ptrs i) s1 dir.readable v1 (λ x y f. kept x y (k x y f)) in
      let index : ltb n (2 ^ 31) ≡ true = ground (arith, dir.in_list) in
      record {
        result = found.result;
        after = found.after;
        ran = rw (index, got, ◌>>=◌, scan_inode) found.ran;
        valid = found.valid;
        same = found.same;
        right = found.right;
      }

  -- The names lead from the directory `cur` to the directory `n`, where `x` is the last of them.
  abbrev pub Leads : State → List (List ℕ) → ℕ → ℕ → List ℕ → Type 0
  Leads s [] cur n x = ⊥
  Leads s (t ∷ []) cur n x = (cur ≡ n) × (t ≡ x)
  Leads s (t ∷ u ∷ ts) cur n x =
      (i : Inode) × IsDir cur i s
      × ((h : Hit) × ((m : ℕ) × Reaches store (is_named t) (ptrs i) m s h)
          × Leads s (u ∷ ts) (entry_inode h.entries h.idx) n x)

  -- The names lead from `cur` to the directory `n`, which does not have the next of them.
  abbrev pub EndsAt : State → List (List ℕ) → ℕ → ℕ → Type 0
  EndsAt s [] cur n = ⊥
  EndsAt s (t ∷ []) cur n = ⊥
  EndsAt s (t ∷ u ∷ ts) cur n =
      (i : Inode) × IsDir cur i s
      × (((cur ≡ n) × Missing store (is_named t) (ptrs i) s)
          ⊎ ((h : Hit) × ((m : ℕ) × Reaches store (is_named t) (ptrs i) m s h)
              × EndsAt s (u ∷ ts) (entry_inode h.entries h.idx) n))

  -- The run of a walk: its result, and a valid state in which all reads as before.
  abbrev pub Walked : DirPos → State → Option (DirPos × State) → Type 0
  Walked pos s r = (s' : State) × (r ≡ some (pos, s')) × IsValid s' × Same store s s'

  module _ (junk : List ℕ) (s0 : State) where
    walk_to :
        (ts : List (List ℕ)) (cur n : ℕ) (x : List ℕ) (s : State)
        → Leads s0 ts cur n x
        → IsValid s
        → Same store s0 s
        → (s' : State) × (walk store junk ts cur s
            ≡ some (record { found = true; inode_no = n; token = x }, s'))
          × IsValid s'
          × Same store s0 s'
    unfolding walk
    walk_to [] cur n x s l v k = elim l [ ]
    walk_to (t ∷ []) cur n x s (e, f) v k = (s, rw (e, f) refl, v, k)
    walk_to (t ∷ u ∷ ts) cur n x s (i, dir, (h, r, l)) v k =
        let found = scan_inode-Searched (is_named t) cur i s0 s dir v k in
        let (h', is_hit, same_entries, same_idx, _) =
          reached store (is_named t) s0 (ptrs i) found.result found.right h r in
        let next : entry_inode h.entries h.idx ≡ entry_inode h'.entries h'.idx =
          rw (same_entries, same_idx) refl in
        let (s2, ran, v2, k2) =
          walk_to (u ∷ ts) (entry_inode h.entries h.idx) n x found.after l found.valid found.same in
        (
          s2,
          rw (found.ran, ◌>>=◌, is_hit, walk)
              (ap (λ e. walk store junk (u ∷ ts) e found.after) (sym next) ∙ ran),
          v2,
          k2,
        )

    walk_fails :
        (ts : List (List ℕ)) (cur n : ℕ) (s : State)
        → EndsAt s0 ts cur n
        → IsValid s
        → Same store s0 s
        → (s' : State) × (walk store junk ts cur s
            ≡ some (record { found = false; inode_no = n; token = junk }, s'))
          × IsValid s'
          × Same store s0 s'
    unfolding walk
    walk_fails [] cur n s l v k = elim l [ ]
    walk_fails (t ∷ []) cur n s l v k = elim l [ ]
    walk_fails (t ∷ u ∷ ts) cur n s (i, dir, inl (same, none_there)) v k =
        let found = scan_inode-Searched (is_named t) cur i s0 s dir v k in
        let is_none = missed store (is_named t) s0 (ptrs i) found.result found.right none_there in
        (found.after, rw (found.ran, ◌>>=◌, is_none, walk) (rw same refl), found.valid, found.same)
    walk_fails (t ∷ u ∷ ts) cur n s (i, dir, inr (h, r, l)) v k =
        let found = scan_inode-Searched (is_named t) cur i s0 s dir v k in
        let (h', is_hit, same_entries, same_idx, _) =
          reached store (is_named t) s0 (ptrs i) found.result found.right h r in
        let next : entry_inode h.entries h.idx ≡ entry_inode h'.entries h'.idx =
          rw (same_entries, same_idx) refl in
        let (s2, ran, v2, k2) =
          walk_fails (u ∷ ts) (entry_inode h.entries h.idx) n found.after l found.valid
            found.same in
        (
          s2,
          rw (found.ran, ◌>>=◌, is_hit, walk)
              (ap (λ e. walk store junk (u ∷ ts) e found.after) (sym next) ∙ ran),
          v2,
          k2,
        )

  -- What `getDirPos` returns of a path whose names lead from the root to a directory, or end at one.
  abbrev pub Position : State → List ℕ → List ℕ → DirPos → Type 0
  Position s junk path pos =
      ((pos.found ≡ true) × Leads s (tokens path) 0 pos.inode_no pos.token)
      ⊎ ((pos.found ≡ false) × (pos.token ≡ junk) × EndsAt s (tokens path) 0 pos.inode_no)

  -- The same in a state that reads as `s0`.
  pub get_dir_pos_from :
      (junk path : List ℕ) (pos : DirPos) (s0 s : State)
      → IsValid s
      → Same store s0 s
      → Position s0 junk path pos
      → (s' : State) × (get_dir_pos store junk path s ≡ some (pos, s'))
        × IsValid s'
        × Same store s0 s'
  unfolding get_dir_pos
  get_dir_pos_from junk path pos s0 s v k (inl (found, l)) =
      let (s', ran, v', k') = walk_to junk s0 (tokens path) 0 pos.inode_no pos.token s l v k in
      (s', ran ∙ ap (λ b. some (record pos { found = b }, s')) (sym found), v', k')
  get_dir_pos_from junk path pos s0 s v k (inr (found, token, l)) =
      let (s', ran, v', k') = walk_fails junk s0 (tokens path) 0 pos.inode_no s l v k in
      (s', ran ∙ rw (sym found, sym token) refl, v', k')

  -- On a valid store `getDirPos` runs without a fault and changes no readable block. If each name of the
  -- path but the last leads to the next directory, it returns the last directory's inode number and
  -- the last name. If a directory does not have its name, it returns -1 and that directory's number.
  pub get_dir_pos-Walked :
      (junk path : List ℕ) (pos : DirPos) (s : State)
      → IsValid s
      → Position s junk path pos
      → Walked pos s (get_dir_pos store junk path s)
  get_dir_pos-Walked junk path pos s v p = get_dir_pos_from junk path pos s s v (λ x y e. e) p
