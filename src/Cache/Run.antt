-- ===== src/Cache/Run.antt =====
-- A whole run over the buffer cache (OS/hw3/buf.c), against a plain array of blocks.
use kw_home_work.Common.{
  ℕ, ◌≡◌, refl, Option, none, some, List, [], ◌∷◌, arith, inl, inr, Bool-cases, ◌==◌, ap, ◌∙◌,
  update, ◌>>=◌,
}
use kw_home_work.Disk.{Block}
use kw_home_work.Cache.{Cache, buf_read, buf_write, buf_sync}
use kw_home_work.Cache.Valid.{IsValid}
use kw_home_work.Cache.View.{view}
use kw_home_work.Cache.Ops.{buf_read-view, Wrote, buf_write-Wrote}
use kw_home_work.Cache.Sync.{buf_sync-Synced}

-- A client's calls; a read carries what `malloc` gives for its buffer.
pub data Call : Type 0 where
  read : ℕ → Block → Call
  write : ℕ → Block → Call
  sync : Call

unfoldable pub run : List Call → Cache → Option (List Block × Cache)
run [] c = some ([], c)
run (read b junk ∷ calls) c = do
  (d, c1) ← buf_read b junk c
  (ds, c2) ← run calls c1
  some (d ∷ ds, c2)
run (write b d ∷ calls) c = do c1 ← buf_write b d c; run calls c1
run (sync ∷ calls) c = do c1 ← buf_sync c; run calls c1

-- The same calls on an array that knows only the blocks that were written.
unfoldable pub run_flat : List Call → (ℕ → Option Block) → Option (List Block × (ℕ → Option Block))
run_flat [] s = some ([], s)
run_flat (read b junk ∷ calls) s = do d ← s b; (ds, t) ← run_flat calls s; some (d ∷ ds, t)
run_flat (write b d ∷ calls) s = run_flat calls (update s b (some d))
run_flat (sync ∷ calls) s = run_flat calls s

abbrev pub Agrees : (ℕ → Option Block) → Cache → Type 0
Agrees s c = (b : ℕ) (d : Block) → s b ≡ some d → view b c ≡ some d

>>=-eq-some :
    {A B : Type 0} (m : Option A) (f : A → Option B) {b : B}
    → (m >>= f) ≡ some b
    → (a : A) × (m ≡ some a) × (f a ≡ some b)
>>=-eq-some none f h = absurd (ground arith)
>>=-eq-some (some a) f h = (a, refl, h)

second : {A B : Type 0} → B → Option (A × B) → B
second d none = d
second d (some (a, b)) = b

same_state :
    {A B : Type 0} {a b : A} {s t : B}
    → ◌≡◌ {A = Option (A × B)} (some (a, s)) (some (b, t))
    → s ≡ t
unfolding second
same_state {A} {B} {s} h = ap (second s) h

Agrees-write :
    {s : ℕ → Option Block} {c c' : Cache} (b : ℕ) (d : Block)
    → Agrees s c
    → Wrote b d c c'
    → Agrees (update s b (some d)) c'
Agrees-write {s} {c} {c'} b d ag w x y h = elim (Bool-cases (x == b)) [
  | inl same ↦ ground (arith, w.written)
  | inr other ↦ w.others x y (ground arith) (ag x y (ground arith))
]

-- A run that the array allows succeeds on a well-formed cache that shows the array: the reads return
-- the same data, and the cache ends well formed and shows the array that the run ends with.
pub run-run_flat :
    (calls : List Call) {c : Cache} {s : ℕ → Option Block} {ds : List Block} {t : ℕ → Option Block}
    → IsValid c
    → Agrees s c
    → run_flat calls s ≡ some (ds, t)
    → (c' : Cache) × (run calls c ≡ some (ds, c')) × IsValid c' × Agrees t c'
unfolding run run_flat
run-run_flat [] {c} {s} {ds} {t} v ag h =
    (c, ground arith, v, λ x y k. ag x y (ap (λ g. g x) (same_state h) ∙ k))
run-run_flat (read b junk ∷ calls) {c} {s} {ds} {t} v ag h =
    let (d, at, rest) = >>=-eq-some (s b) _ h in
    let ((ds', t'), ran, e) = >>=-eq-some (run_flat calls s) _ rest in
    let (c1, got, v1, keeps) = buf_read-view b junk d v (ag b d at) in
    let (c2, ran', v2, ag2) = run-run_flat calls v1 (λ x y k. keeps x y (ag x y k)) ran in
    (c2, rw (got, ran') (ground arith), v2, λ x y k. ag2 x y (ap (λ g. g x) (same_state e) ∙ k))
run-run_flat (write b d ∷ calls) v ag h =
    let (c1, wrote, w) = buf_write-Wrote b d v in
    let (c2, ran, v2, ag2) = run-run_flat calls w.valid (Agrees-write b d ag w) h in
    (c2, rw wrote ran, v2, ag2)
run-run_flat (sync ∷ calls) v ag h =
    let (c1, synced, s1, _) = buf_sync-Synced v in
    let (c2, ran, v2, ag2) = run-run_flat calls s1.valid (λ x y k. s1.keeps x y (ag x y k)) h in
    (c2, rw synced ran, v2, ag2)
