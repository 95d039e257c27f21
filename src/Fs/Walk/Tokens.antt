-- ===== src/Fs/Walk/Tokens.antt =====
-- The split of a path by `strtok` in `getDirPos` of OS/hw3/fs.c.
use kw_home_work.Common.{
  ℕ, zero, suc, ◌≤◌, ◌≡◌, ◌≢◌, refl, ap, sym, ◌∙◌, List, [], ◌∷◌, ◌++◌, arith, length, take,
}
use kw_home_work.Fs.Walk.{tokens, tokens_from}

abbrev pub HasNoSlash : List ℕ → Type 0
HasNoSlash [] = Unit {0}
HasNoSlash (c ∷ cs) = (c ≢ 47) × HasNoSlash cs

-- A list of names that are not empty and have no slash.
abbrev pub AreNames : List (List ℕ) → Type 0
AreNames [] = Unit {0}
AreNames (t ∷ ts) = (t ≢ []) × HasNoSlash t × AreNames ts

-- The absolute path of the names.
unfoldable pub join : List (List ℕ) → List ℕ
join [] = []
join (t ∷ ts) = 47 ∷ t ++ join ts

append_step : (xs : List ℕ) (c : ℕ) (ys : List ℕ) → (xs ++ c ∷ []) ++ ys ≡ xs ++ c ∷ ys
append_step [] c ys = refl
append_step (x ∷ xs) c ys = ap (◌∷◌ x) (append_step xs c ys)

take_all : (n : ℕ) (xs : List ℕ) → length xs ≤ n → take n xs ≡ xs
take_all zero [] h = refl
take_all zero (x ∷ xs) h = absurd (omega arith)
take_all (suc n) [] h = refl
take_all (suc n) (x ∷ xs) h = ap (◌∷◌ x) (take_all n xs (omega arith))

tokens_from-append :
    (cur t rest : List ℕ) → HasNoSlash t → tokens_from cur (t ++ rest) ≡ tokens_from (cur ++ t) rest
unfolding tokens_from
tokens_from-append cur [] rest h = ap (λ c. tokens_from c rest) (sym (append_nil cur))
  where
    append_nil : (xs : List ℕ) → xs ++ [] ≡ xs
    append_nil [] = refl
    append_nil (x ∷ xs) = ap (◌∷◌ x) (append_nil xs)
tokens_from-append cur (c ∷ cs) rest (ne, h) =
    let step : tokens_from cur (c ∷ (cs ++ rest)) ≡ tokens_from (cur ++ c ∷ []) (cs ++ rest) =
      ground arith in
    step
    ∙ tokens_from-append (cur ++ c ∷ []) cs rest h
    ∙ ap (λ x. tokens_from x rest) (append_step cur c cs)

tokens_from-join :
    (t : List ℕ) (ts : List (List ℕ)) → t ≢ [] → AreNames ts → tokens_from t (join ts) ≡ t ∷ ts
unfolding tokens_from join
tokens_from-join [] ts ne h = absurd (ne refl)
tokens_from-join (c ∷ cs) [] ne h = refl
tokens_from-join (c ∷ cs) (u ∷ us) ne (ne1, slashes, h) =
    ap (◌∷◌ (c ∷ cs)) (tokens_from-append [] u (join us) slashes ∙ tokens_from-join u us ne1 h)

-- The absolute path of names that are not empty and have no slash, in at most 99 bytes, is split into
-- these names.
pub tokens-join : (ts : List (List ℕ)) → AreNames ts → length (join ts) ≤ 99 → tokens (join ts) ≡ ts
unfolding tokens tokens_from join
tokens-join [] h small = refl
tokens-join (t ∷ ts) (ne, slashes, h) small =
    ap (tokens_from []) (take_all 99 (47 ∷ t ++ join ts) small)
    ∙ tokens_from-append [] t (join ts) slashes
    ∙ tokens_from-join t ts ne h
