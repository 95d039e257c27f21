-- ===== src/Fs/Walk/Search.antt =====
-- The directory search of OS/hw3/fs.c: the loops find the first entry that passes their test.
use kw_home_work.Common.{
  ℕ, zero, suc, ◌+◌, ◌^◌, ◌<◌, ◌≤◌, ◌≡◌, ◌≢◌, ◌⊎◌, inl, inr, refl, ap, sym, ◌∙◌, Bool, true, false,
  Option, none, some, List, [], ◌∷◌, arith, Bool-cases, ◌==◌, ltb,
}
use mathlib.Core.Option.{some-injective}
use native.Mathlib.Decide.{dec_lt, ℕ_discrete}
use kw_home_work.Disk.{Block}
use kw_home_work.Store.{BlockStore}
use kw_home_work.Fs.{◌>>=◌}
use kw_home_work.Fs.Entry.{num_of_dirent_per_block}
use kw_home_work.Fs.Walk.{Hit, find_entry, scan}

-- The first number from `j` on, of `n`, that passes.
abbrev pub FirstFrom : (n j : ℕ) → (ℕ → Bool) → Option ℕ → Type 0
FirstFrom n j test none = (k : ℕ) → j ≤ k → k < j + n → test k ≡ false
FirstFrom n j test (some k) =
    (j ≤ k) × (k < j + n) × (test k ≡ true) × ((m : ℕ) → j ≤ m → m < k → test m ≡ false)

at_or_after :
    (j k : ℕ) (test : ℕ → Bool)
    → test j ≡ false
    → j ≤ k
    → (j + 1 ≤ k → test k ≡ false)
    → test k ≡ false
at_or_after j k test e from after = elim (ℕ_discrete j k) [
  | yes same ↦ ap test (sym same) ∙ e
  | no other ↦ after (omega arith)
]

FirstFrom-later :
    (n j : ℕ) (test : ℕ → Bool)
    → test j ≡ false
    → (o : Option ℕ) → FirstFrom n (j + 1) test o
    → FirstFrom (suc n) j test o
FirstFrom-later n j test e none all =
    λ k from to. at_or_after j k test e from (λ after. all k after (omega arith))
FirstFrom-later n j test e (some k) (from, to, t, first) = (
  omega arith,
  omega arith,
  t,
  λ m m_from m_to. at_or_after j m test e m_from (λ after. first m after m_to),
)

find_entry-First : (n j : ℕ) (test : ℕ → Bool) → FirstFrom n j test (find_entry n j test)
unfolding find_entry
find_entry-First zero j test = λ k from to. absurd (omega arith)
find_entry-First (suc n) j test = by_test (Bool-cases (test j)) (find_entry-First n (j + 1) test)
  where
    by_test :
        (test j ≡ true) ⊎ (test j ≡ false)
        → FirstFrom n (j + 1) test (find_entry n (j + 1) test)
        → FirstFrom (suc n) j test (find_entry (suc n) j test)
    by_test (inl e) rest =
        let first : (m : ℕ) → j ≤ m → m < j → test m ≡ false = λ m from to. absurd (omega arith) in
        let here : FirstFrom (suc n) j test (some j) = (omega arith, omega arith, e, first) in
        rw (e, find_entry) here
    by_test (inr e) rest = rw (e, find_entry) (FirstFrom-later n j test e _ rest)

module _ (store : BlockStore) where
  open store use {State, IsValid, block, buf_read, read_law}

  -- Every block that could be read reads the same.
  abbrev pub Same : State → State → Type 0
  Same s s' = (x : ℕ) (y : Block) → block x s ≡ some y → block x s' ≡ some y

  -- Every pointer is 0 or the number of a readable block.
  abbrev pub AreReadable : List ℕ → State → Type 0
  AreReadable [] s = Unit {0}
  AreReadable (p ∷ ps) s =
      ((p ≡ 0) ⊎ ((p ≢ 0) × (p < 2 ^ 31) × (d : Block) × (block p s ≡ some d))) × AreReadable ps s

  -- No entry of a block passes.
  abbrev pub AllFail : (Block → ℕ → Bool) → Block → Type 0
  AllFail test d = (k : ℕ) → k < num_of_dirent_per_block → test d k ≡ false

  -- A pointer that leads to no entry that passes: it is 0, or all entries of its block fail.
  abbrev pub Fails : (Block → ℕ → Bool) → ℕ → State → Type 0
  Fails test p s = (p ≡ 0) ⊎ ((d : Block) × (block p s ≡ some d) × AllFail test d)

  abbrev pub Missing : (Block → ℕ → Bool) → List ℕ → State → Type 0
  Missing test [] s = Unit {0}
  Missing test (p ∷ ps) s = Fails test p s × Missing test ps s

  -- The entry is in the block behind the pointer, and passes; those before it fail.
  pub record IsHit (test : Block → ℕ → Bool) (p : ℕ) (s : State) (h : Hit) : Type 0 where
    pub nonzero : p ≢ 0
    pub same : h.blkno ≡ p
    pub stored : block p s ≡ some h.entries
    pub in_block : h.idx < num_of_dirent_per_block
    pub passes : test h.entries h.idx ≡ true
    pub first : (k : ℕ) → k < h.idx → test h.entries k ≡ false

  -- The pointer with the index leads to the entry, and those before it to none.
  abbrev pub Reaches : (Block → ℕ → Bool) → List ℕ → ℕ → State → Hit → Type 0
  Reaches test [] i s h = ⊥
  Reaches test (p ∷ ps) zero s h = IsHit test p s h
  Reaches test (p ∷ ps) (suc i) s h = Fails test p s × Reaches test ps i s h

  -- What a search returns whose first pointer has index `i`.
  abbrev pub Result : (Block → ℕ → Bool) → ℕ → List ℕ → State → Option Hit → Type 0
  Result test i ps s none = Missing test ps s
  Result test i ps s (some h) = (m : ℕ) × (h.ptr_idx ≡ i + m) × Reaches test ps m s h

  -- The run of a search: its result, and a valid state in which all reads as before.
  pub record Searched (test : Block → ℕ → Bool) (i : ℕ) (ps : List ℕ) (s : State)
      (r : Option (Option Hit × State)) : Type 0 where
    pub result : Option Hit
    pub after : State
    pub ran : r ≡ some (result, after)
    pub valid : IsValid after
    pub same : Same s after
    pub right : Result test i ps s result

  module _ (test : Block → ℕ → Bool) (i p : ℕ) (ps : List ℕ) (s : State) where
    skip :
        Fails test p s → (o : Option Hit) → Result test (i + 1) ps s o → Result test i (p ∷ ps) s o
    skip f none r = (f, r)
    skip f (some h) (m, e, r) = (suc m, omega arith, (f, r))

  module _ (test : Block → ℕ → Bool) (i p : ℕ) (ps : List ℕ) (s0 s : State) where
    -- The step over a block, given the search of the entries and of the later pointers.
    scan_block :
        p ≢ 0
        → p < 2 ^ 31
        → (d : Block) → block p s0 ≡ some d
        → (s1 : State) → buf_read p s ≡ some (d, s1)
        → IsValid s1
        → Same s0 s1
        → Searched test (i + 1) ps s0 (scan store test (i + 1) ps s1)
        → (o : Option ℕ) → find_entry num_of_dirent_per_block 0 (test d) ≡ o
        → FirstFrom num_of_dirent_per_block 0 (test d) o
        → Searched test i (p ∷ ps) s0 (scan store test i (p ∷ ps) s)
    unfolding scan
    scan_block ne small d at s1 got v1 kept rest none e all =
        let nonzero : (p == 0) ≡ false = ground arith in
        let index : ltb p (2 ^ 31) ≡ true = ground arith in
        record {
          result = rest.result;
          after = rest.after;
          ran = rw (nonzero, index, got, ◌>>=◌, e, scan) rest.ran;
          valid = rest.valid;
          same = rest.same;
          right =
              skip test i p ps s0 (inr (d, at, λ k h. all k (omega arith) (omega arith)))
                rest.result rest.right;
        }
    scan_block ne small d at s1 got v1 kept rest (some j) e (from, to, passes, first) =
        let nonzero : (p == 0) ≡ false = ground arith in
        let index : ltb p (2 ^ 31) ≡ true = ground arith in
        let hit : Hit = record { ptr_idx = i; blkno = p; idx = j; entries = d } in
        record {
          result = some hit;
          after = s1;
          ran = rw (nonzero, index, got, ◌>>=◌, e, scan) refl;
          valid = v1;
          same = kept;
          right = (
            0,
            omega arith,
            record {
              nonzero = ne;
              same = refl;
              stored = at;
              in_block = omega arith;
              passes = passes;
              first = λ k h. first k (omega arith) h;
            },
          );
        }

  module _ (test : Block → ℕ → Bool) (s0 : State) where
    pub scan_from :
        (i : ℕ) (ps : List ℕ) (s : State)
        → AreReadable ps s0
        → IsValid s
        → Same s0 s
        → Searched test i ps s0 (scan store test i ps s)
    unfolding scan
    scan_from i [] s r v k = record {
      result = none;
      after = s;
      ran = refl;
      valid = v;
      same = k;
      right = tt;
    }
    scan_from i (p ∷ ps) s (inl z, r) v k =
        let rest = scan_from (i + 1) ps s r v k in
        let zero_ptr : (p == 0) ≡ true = ground arith in
        record {
          result = rest.result;
          after = rest.after;
          ran = rw (zero_ptr, scan) rest.ran;
          valid = rest.valid;
          same = rest.same;
          right = skip test i p ps s0 (inl z) rest.result rest.right;
        }
    scan_from i (p ∷ ps) s (inr (ne, small, d, at), r) v k =
        let (s1, got, v1, kept) = read_law s p d v (k p d at) in
        let kept1 : Same s0 s1 = λ x y e. kept x y (k x y e) in
        scan_block test i p ps s0 s ne small d at s1 got v1 kept1
          (scan_from (i + 1) ps s1 r v1 kept1) _ refl
          (find_entry-First num_of_dirent_per_block 0 (test d))

  -- On a valid store where every pointer is 0 or leads to a readable block, the search of a directory
  -- runs without a fault and changes no readable block. It returns the first entry that passes its
  -- test, with its place, and none only if no entry passes.
  pub scan-Searched :
      (test : Block → ℕ → Bool) (ps : List ℕ) (s : State)
      → IsValid s
      → AreReadable ps s
      → Searched test 0 ps s (scan store test 0 ps s)
  scan-Searched test ps s v r = scan_from test s 0 ps s r v (λ x y e. e)

  module _ (test : Block → ℕ → Bool) (s : State) where
    same_block : (p : ℕ) (d e : Block) → block p s ≡ some d → block p s ≡ some e → d ≡ e
    same_block p d e at at' = some-injective d e (sym at ∙ at')

    hit-Fails : (p : ℕ) (h : Hit) → IsHit test p s h → Fails test p s → ⊥
    hit-Fails p h hit (inl z) = hit.nonzero z
    hit-Fails p h hit (inr (d, at, all)) =
        let fails : test h.entries h.idx ≡ false =
          ap (λ b. test b h.idx) (same_block p h.entries d hit.stored at)
          ∙ all h.idx hit.in_block in
        ground (arith, fails, hit.passes)

    not_before : (p : ℕ) (h h' : Hit) → IsHit test p s h → IsHit test p s h' → h.idx < h'.idx → ⊥
    not_before p h h' hit hit' lt =
        let fails : test h.entries h.idx ≡ false =
          ap (λ b. test b h.idx) (same_block p h.entries h'.entries hit.stored hit'.stored)
          ∙ hit'.first h.idx lt in
        ground (arith, fails, hit.passes)

    -- What a search can reach is one entry, and none where it reaches nothing.
    pub Reaches-unique :
        (ps : List ℕ) (m m' : ℕ) (h h' : Hit)
        → Reaches test ps m s h
        → Reaches test ps m' s h'
        → (h.entries ≡ h'.entries) × (h.idx ≡ h'.idx) × (h.blkno ≡ h'.blkno)
    Reaches-unique [] m m' h h' r r' = elim r [ ]
    Reaches-unique (p ∷ ps) zero zero h h' r r' = (
      same_block p h.entries h'.entries r.stored r'.stored,
      elim (dec_lt h.idx h'.idx) [
        | yes below ↦ absurd (not_before p h h' r r' below)
        | no not_below ↦ elim (dec_lt h'.idx h.idx) [
          | yes above ↦ absurd (not_before p h' h r' r above)
          | no not_above ↦ omega arith
        ]
      ],
      r.same ∙ sym r'.same,
    )
    Reaches-unique (p ∷ ps) zero (suc m') h h' r (f, r') = absurd (hit-Fails p h r f)
    Reaches-unique (p ∷ ps) (suc m) zero h h' (f, r) r' = absurd (hit-Fails p h' r' f)
    Reaches-unique (p ∷ ps) (suc m) (suc m') h h' (f, r) (f', r') = Reaches-unique ps m m' h h' r r'

    pub Reaches-Missing :
        (ps : List ℕ) (m : ℕ) (h : Hit) → Reaches test ps m s h → Missing test ps s → ⊥
    Reaches-Missing [] m h r none_there = r
    Reaches-Missing (p ∷ ps) zero h r (f, none_there) = hit-Fails p h r f
    Reaches-Missing (p ∷ ps) (suc m) h (f, r) (f', none_there) = Reaches-Missing ps m h r none_there

    -- The result of a search that can reach an entry, and of one that cannot.
    pub reached :
        (ps : List ℕ) (o : Option Hit)
        → Result test 0 ps s o
        → (h : Hit) → (m : ℕ) × Reaches test ps m s h
        → (h' : Hit) × (o ≡ some h')
          × (h.entries ≡ h'.entries)
          × (h.idx ≡ h'.idx)
          × (h.blkno ≡ h'.blkno)
    reached ps none right h (m, r) = absurd (Reaches-Missing ps m h r right)
    reached ps (some h') (m', e, r') h (m, r) =
        (let (entries, idx, blkno) = Reaches-unique ps m m' h h' r r' in
          (h', refl, entries, idx, blkno))

    pub missed :
        (ps : List ℕ) (o : Option Hit) → Result test 0 ps s o → Missing test ps s → o ≡ none
    missed ps none right none_there = refl
    missed ps (some h) (m, e, r) none_there = absurd (Reaches-Missing ps m h r none_there)
