-- ===== src/Cache/View.antt =====
-- What the clients of OS/hw3/buf.c see: the contents of each block, wherever they are kept.
use kw_home_work.Common.{ℕ, ◌≡◌, refl, Option, none, some, arith, inl, inr, Option-cases}
use kw_home_work.Disk.{Block, content}
use kw_home_work.Cache.{Cache, buf_find}
use kw_home_work.Cache.Valid.{IsValid, Holds, buf_find-Holds, buf_find_miss, buf_find_of_Holds}

-- The cached copy of a block, or else the disk's; `none` past the end of the disk.
unfoldable pub view : ℕ → Cache → Option Block
view b c = elim (buf_find b c) [ some p ↦ some (c.bufs p).mem | none ↦ content c.disk b ]

module _ {c : Cache} (v : IsValid c) (b : ℕ) where
  pub view-Holds : (p : ℕ) → Holds c b p → view b c ≡ some (c.bufs p).mem
  unfolding view
  view-Holds p k = ground (arith, buf_find_of_Holds v b p k)

  pub view_by :
      (r : Option Block)
      → ((p : ℕ) → Holds c b p → some (c.bufs p).mem ≡ r)
      → (((p : ℕ) → Holds c b p → ⊥) → content c.disk b ≡ r)
      → view b c ≡ r
  unfolding view
  view_by r hit miss = elim (Option-cases (buf_find b c)) [
    | inl e ↦ let m = miss (λ p. buf_find_miss v b p e) in ground arith
    | inr (p, e) ↦ let m = hit p (buf_find-Holds v b p e) in ground arith
  ]

  pub view_of_miss : ((p : ℕ) → Holds c b p → ⊥) → view b c ≡ content c.disk b
  view_of_miss out = view_by (content c.disk b) (λ p k. absurd (out p k)) (λ _. refl)
