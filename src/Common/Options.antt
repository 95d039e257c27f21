-- ===== src/Common/Options.antt =====
-- Code that may fault, as a chain of options; a store with one place changed; and the C integers
-- that count up and down.
use Prim.Native.Nat.{ℕ, zero, suc}
use mathlib.Core.Bool.{Bool, true, false}
use mathlib.Core.Option.{Option, none, some}
use kw_home_work.Common.Tests.{◌==◌, if◌then◌else◌}

infixl 5 ◌>>=◌
abbrev pub ◌>>=◌ : {A B : Type 0} → Option A → (A → Option B) → Option B
none >>= f = none
some a >>= f = f a

abbrev pub update : {A : Type 0} → (ℕ → A) → ℕ → A → ℕ → A
update f p v q = if q == p then v else f q

-- An `int`: `pos n` is n, `negsuc n` is -1 - n.
pub data ℤ : Type 0 where
  pos : ℕ → ℤ
  negsuc : ℕ → ℤ

abbrev pub inc : ℤ → ℤ
inc (ℤ.pos n) = ℤ.pos (suc n)
inc (ℤ.negsuc zero) = ℤ.pos 0
inc (ℤ.negsuc (suc n)) = ℤ.negsuc n

abbrev pub dec : ℤ → ℤ
dec (ℤ.pos zero) = ℤ.negsuc 0
dec (ℤ.pos (suc n)) = ℤ.pos n
dec (ℤ.negsuc n) = ℤ.negsuc (suc n)

abbrev pub is_zero : ℤ → Bool
is_zero (ℤ.pos zero) = true
is_zero _ = false

abbrev pub is_pos : ℤ → Bool
is_pos (ℤ.pos (suc n)) = true
is_pos _ = false
