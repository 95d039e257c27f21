-- ===== src/Threads/Tables.antt =====
-- The loops over the tables of SystemSoftware/Thread-scheduler: for an unused entry, the calling thread,
-- or a waiting one.
use mathlib.Core.Path.{subst}
use kw_home_work.Common.{
  ℕ, zero, suc, ◌+◌, ◌<◌, ◌≤◌, ◌≡◌, refl, sym, Bool, true, Option, some, arith, ◌==◌, if◌then◌else◌,
  inl, inr, Bool-cases, false,
}
use kw_home_work.Threads.{search}

-- A loop over the table stops at the first entry that passes,
pub search-first :
    (test : ℕ → Option Bool) (k n i : ℕ)
    → k ≤ i
    → i < k + n
    → ((j : ℕ) → k ≤ j → j < i → test j ≡ some false)
    → test i ≡ some true
    → search test k n ≡ some i
unfolding search
search-first test k zero i l m f e = absurd (omega arith)
search-first test k (suc n) i l m f e = elim (Bool-cases (k == i)) [
  | inl b ↦
      let z : k ≡ i = ground (arith, b) in
      subst (λ j. search test j (suc n) ≡ some i) (sym z) (rw (search, e, if◌then◌else◌) refl)
  | inr b ↦
      rw (search, f k (omega arith) (ground (arith, b)), if◌then◌else◌)
        (search-first test (suc k) n i (ground (arith, b)) (omega arith)
          (λ j q. f j (omega (arith, q))) e)
]

-- and there is a first one if one passes.
pub search-lowest :
    (f : ℕ → Bool) (k n i : ℕ)
    → k ≤ i
    → i < k + n
    → f i ≡ true
    → (j : ℕ) × (search (λ x. some (f x)) k n ≡ some j)
      × (j < k + n)
      × (f j ≡ true)
      × ((x : ℕ) → k ≤ x → x < j → f x ≡ false)
unfolding search
search-lowest f k zero i l m e = absurd (omega arith)
search-lowest f k (suc n) i l m e = elim (Bool-cases (f k)) [
  | inl b ↦
      (k, rw (search, b, if◌then◌else◌) refl, omega arith, b, λ x p q. absurd (omega (arith, p, q)))
  | inr b ↦
      let i_over : suc k ≤ i = elim (Bool-cases (k == i)) [
        | inl c ↦ absurd (ground (arith, c, b, e))
        | inr c ↦ ground (arith, c)
      ] in
      let (j, r, y, z, g) = search-lowest f (suc k) n i i_over (omega arith) e in
      (
        j,
        rw (search, b, if◌then◌else◌) r,
        omega (arith, y),
        z,
        λ x p q. elim (Bool-cases (k == x)) [
          | inl c ↦ ground (arith, c, b)
          | inr c ↦ g x (ground (arith, c, p)) q
        ],
      )
]
