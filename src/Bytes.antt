-- ===== src/Bytes.antt =====
-- Bytes in memory: the parts of a block that `memcpy` of OS/hw3/fs_internal.c reads and writes.
pub mod Words
use kw_home_work.Common.{
  ℕ, zero, suc, ◌+◌, ◌≤◌, ◌≡◌, refl, ap, List, [], ◌∷◌, arith, length, take, drop,
}

-- The `n` bytes at an offset.
unfoldable pub slice : ℕ → ℕ → List ℕ → List ℕ
slice o n xs = take n (drop o xs)

-- Bytes written over the front of others.
unfoldable pub overwrite : List ℕ → List ℕ → List ℕ
overwrite [] xs = xs
overwrite (y ∷ ys) [] = []
overwrite (y ∷ ys) (x ∷ xs) = y ∷ overwrite ys xs

-- `memcpy` of `ys` to an offset.
unfoldable pub splice : ℕ → List ℕ → List ℕ → List ℕ
unfolding overwrite
splice zero ys xs = overwrite ys xs
splice (suc o) ys [] = []
splice (suc o) ys (x ∷ xs) = x ∷ splice o ys xs

pub length-overwrite : (ys xs : List ℕ) → length (overwrite ys xs) ≡ length xs
unfolding overwrite
length-overwrite [] xs = refl
length-overwrite (y ∷ ys) [] = refl
length-overwrite (y ∷ ys) (x ∷ xs) = ap suc (length-overwrite ys xs)

pub length-splice : (o : ℕ) (ys xs : List ℕ) → length (splice o ys xs) ≡ length xs
unfolding splice
length-splice zero ys xs = length-overwrite ys xs
length-splice (suc o) ys [] = refl
length-splice (suc o) ys (x ∷ xs) = ap suc (length-splice o ys xs)

take-overwrite : (ys xs : List ℕ) → length ys ≤ length xs → take (length ys) (overwrite ys xs) ≡ ys
unfolding overwrite
take-overwrite [] xs h = refl
take-overwrite (y ∷ ys) [] h = absurd (omega arith)
take-overwrite (y ∷ ys) (x ∷ xs) h = ap (◌∷◌ y) (take-overwrite ys xs (omega arith))

-- What was written reads back,
pub slice-splice_self :
    (o : ℕ) (ys xs : List ℕ) → o + length ys ≤ length xs → slice o (length ys) (splice o ys xs) ≡ ys
unfolding slice splice
slice-splice_self zero ys xs h = take-overwrite ys xs (omega arith)
slice-splice_self (suc o) ys [] h = absurd (omega arith)
slice-splice_self (suc o) ys (x ∷ xs) h = slice-splice_self o ys xs (omega arith)

drop-overwrite : (ys xs : List ℕ) (n : ℕ) → length ys ≤ n → drop n (overwrite ys xs) ≡ drop n xs
unfolding overwrite
drop-overwrite [] xs n h = refl
drop-overwrite (y ∷ ys) xs zero h = absurd (omega arith)
drop-overwrite (y ∷ ys) [] (suc n) h = refl
drop-overwrite (y ∷ ys) (x ∷ xs) (suc n) h = drop-overwrite ys xs n (omega arith)

pub drop-splice_self : (o : ℕ) (ys xs : List ℕ) → drop o (splice o ys xs) ≡ overwrite ys (drop o xs)
unfolding splice overwrite
drop-splice_self zero ys xs = refl
drop-splice_self (suc o) [] [] = refl
drop-splice_self (suc o) (y ∷ ys) [] = refl
drop-splice_self (suc o) ys (x ∷ xs) = drop-splice_self o ys xs

drop-splice :
    (o : ℕ) (ys xs : List ℕ) (n : ℕ) → o + length ys ≤ n → drop n (splice o ys xs) ≡ drop n xs
unfolding splice
drop-splice zero ys xs n h = drop-overwrite ys xs n (omega arith)
drop-splice (suc o) ys xs zero h = absurd (omega arith)
drop-splice (suc o) ys [] (suc n) h = refl
drop-splice (suc o) ys (x ∷ xs) (suc n) h = drop-splice o ys xs n (omega arith)

take-splice : (o : ℕ) (ys xs : List ℕ) (n : ℕ) → n ≤ o → take n (splice o ys xs) ≡ take n xs
unfolding splice
take-splice o ys xs zero h = refl
take-splice zero ys xs (suc n) h = absurd (omega arith)
take-splice (suc o) ys [] (suc n) h = refl
take-splice (suc o) ys (x ∷ xs) (suc n) h = ap (◌∷◌ x) (take-splice o ys xs n (omega arith))

-- and what lies behind
pub slice-splice_above :
    (o : ℕ) (ys xs : List ℕ) (o' n : ℕ)
    → o + length ys ≤ o'
    → slice o' n (splice o ys xs) ≡ slice o' n xs
unfolding slice
slice-splice_above o ys xs o' n h = ap (take n) (drop-splice o ys xs o' h)

-- or before it is unchanged.
pub slice-splice_below :
    (o : ℕ) (ys xs : List ℕ) (o' n : ℕ) → o' + n ≤ o → slice o' n (splice o ys xs) ≡ slice o' n xs
unfolding slice splice
slice-splice_below o ys xs zero n h = take-splice o ys xs n (omega arith)
slice-splice_below zero ys xs (suc o') n h = absurd (omega arith)
slice-splice_below (suc o) ys [] (suc o') n h = refl
slice-splice_below (suc o) ys (x ∷ xs) (suc o') n h = slice-splice_below o ys xs o' n (omega arith)
