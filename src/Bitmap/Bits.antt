-- ===== src/Bitmap/Bits.antt =====
-- One byte of a bitmap of OS/hw3/fs_internal.c: its bits after a change, from a table of all bytes.
use kw_home_work.Common.{
  ℕ, zero, suc, ◌<◌, ◌≡◌, refl, Bool, true, false, not, ◌&&◌, ◌||◌, arith, ◌==◌, ltb, if◌then◌else◌,
}
use kw_home_work.Bitmap.{set_bit, reset_bit, is_bit_clear}

-- Whether a test holds of every number under a bound.
passes : (test : ℕ → Bool) → ℕ → Bool
passes test zero = true
passes test (suc bound) = if test bound then passes test bound else false

module _ (test : ℕ → Bool) (i : ℕ) where
  each-passes : (bound : ℕ) → i < bound → passes test bound ≡ true → test i ≡ true
  unfolding passes
  each-passes zero in_range all = absurd (omega arith)
  each-passes (suc bound) in_range all = ground (arith, each-passes bound)

abbrev iff : Bool → Bool → Bool
iff true b = b
iff false b = not b

iff_eq : (a b : Bool) → iff a b ≡ true → a ≡ b
iff_eq true b h = ground arith
iff_eq false b h = ground arith

-- After a change at bit `k` of the byte `x`, bit `j`.
abbrev set_ok : ℕ → ℕ → ℕ → Bool
set_ok x k j =
    ltb (set_bit x k) 256 && iff (is_bit_clear (set_bit x k) j) (not (k == j) && is_bit_clear x j)

abbrev reset_ok : ℕ → ℕ → ℕ → Bool
reset_ok x k j =
    ltb (reset_bit x k) 256 && iff (is_bit_clear (reset_bit x k) j) ((k == j) || is_bit_clear x j)

set_table : passes (λ x. passes (λ k. passes (set_ok x k) 8) 8) 256 ≡ true
unfolding passes set_bit is_bit_clear
set_table = refl

reset_table : passes (λ x. passes (λ k. passes (reset_ok x k) 8) 8) 256 ≡ true
unfolding passes reset_bit is_bit_clear
reset_table = refl

module _ (x k j : ℕ) (byte : x < 256) (hk : k < 8) (hj : j < 8) where
  entry :
      (ok : ℕ → ℕ → ℕ → Bool)
      → passes (λ x. passes (λ k. passes (ok x k) 8) 8) 256 ≡ true
      → ok x k j ≡ true
  entry ok table =
      let row = each-passes (λ x. passes (λ k. passes (ok x k) 8) 8) x 256 byte table in
      let column = each-passes (λ k. passes (ok x k) 8) k 8 hk row in
      each-passes (ok x k) j 8 hj column

  set_row : set_ok x k j ≡ true
  set_row = entry set_ok set_table

  reset_row : reset_ok x k j ≡ true
  reset_row = entry reset_ok reset_table

  pub set_bit-lt : set_bit x k < 256
  set_bit-lt = ground (arith, set_row)

  pub reset_bit-lt : reset_bit x k < 256
  reset_bit-lt = ground (arith, reset_row)

  pub is_bit_clear-set_bit : is_bit_clear (set_bit x k) j ≡ (not (k == j) && is_bit_clear x j)
  is_bit_clear-set_bit = iff_eq _ _ (ground (arith, set_row))

  pub is_bit_clear-reset_bit : is_bit_clear (reset_bit x k) j ≡ ((k == j) || is_bit_clear x j)
  is_bit_clear-reset_bit = iff_eq _ _ (ground (arith, reset_row))
