-- ===== src/Common/Members.antt =====
-- Queues of addresses: how often an address stands on one. The invariants of the buffer cache
-- and of the object tables are equations between such counts.
use Prim.Native.Nat.{ℕ, ◌+◌}
use mathlib.Core.Path.{◌≡◌, refl}
use mathlib.Core.List.{List, [], ◌∷◌, ◌++◌}
use native.Mathlib.Omega.{arith}
use kw_home_work.Common.Tests.{◌==◌, if◌then◌else◌}

unfoldable pub count : ℕ → List ℕ → ℕ
count p [] = 0
count p (q ∷ qs) = (if q == p then 1 else 0) + count p qs

pub count-append : (p : ℕ) (xs ys : List ℕ) → count p (xs ++ ys) ≡ count p xs + count p ys
unfolding count
count-append p [] ys = omega arith
count-append p (x ∷ xs) ys = omega (arith, count-append p xs ys)

pub count-snoc :
    (p q : ℕ) (xs : List ℕ) → count p (xs ++ q ∷ []) ≡ count p xs + (if q == p then 1 else 0)
unfolding count
count-snoc p q xs = omega (arith, count-append p xs (q ∷ []))

pub count-cons : (p q : ℕ) (xs : List ℕ) → count p (q ∷ xs) ≡ (if q == p then 1 else 0) + count p xs
unfolding count
count-cons p q xs = refl

pub count-nil : (p : ℕ) → count p [] ≡ 0
unfolding count
count-nil p = refl
