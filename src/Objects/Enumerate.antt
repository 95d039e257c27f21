-- ===== src/Objects/Enumerate.antt =====
-- The enumerations of OS/hw1/hw1.c: what they write to the caller's array, and when they leave an array.
use kw_home_work.Common.{
  ℕ, zero, suc, ◌+◌, ◌%◌, ◌≤◌, ◌<◌, ◌≡◌, ◌⊎◌, inl, inr, refl, sym, ◌∙◌, ap, Option, none, some,
  List, [], ◌∷◌, ◌++◌, arith, ltb, ltb-true, ◌==◌, if◌then◌else◌, length, count, drop, ◌>>=◌,
  get_elem?, set, length-append, length-set, Bool-cases, Option-cases,
}
use native.Mathlib.Decide.{dec_lt}
use kw_home_work.Objects.{
  Tables, ListNum, hash_tbl_size, gather, copy_out, put, enumerate, enumerate_objects_by_list_num,
  enumerate_objects_by_hash_index,
}
use kw_home_work.Objects.Valid.{IsValid}

append_nil : (xs : List ℕ) → xs ++ [] ≡ xs
append_nil [] = refl
append_nil (x ∷ xs) = ap (◌∷◌ x) (append_nil xs)

shift_append : (xs : List ℕ) (p : ℕ) (ys : List ℕ) → (xs ++ p ∷ []) ++ ys ≡ xs ++ p ∷ ys
shift_append [] p ys = refl
shift_append (x ∷ xs) p ys = ap (◌∷◌ x) (shift_append xs p ys)

set_behind :
    (xs : List ℕ) (a p : ℕ) (rest : List ℕ)
    → set (xs ++ a ∷ rest) (length xs) p ≡ (xs ++ p ∷ []) ++ rest
set_behind [] a p rest = refl
set_behind (x ∷ xs) a p rest = ap (◌∷◌ x) (set_behind xs a p rest)

elem_behind :
    (xs : List ℕ) (p : ℕ) (rest : List ℕ) → get_elem? (xs ++ p ∷ rest) (length xs) ≡ some p
elem_behind [] p rest = refl
elem_behind (x ∷ xs) p rest = elem_behind xs p rest

put_behind :
    (xs : List ℕ) (a p i : ℕ) (rest : List ℕ)
    → length xs ≡ i
    → put i p (xs ++ a ∷ rest) ≡ some ((xs ++ p ∷ []) ++ rest)
put_behind xs a p i rest e =
    rw
      (
        sym e,
        ltb-true (length xs) (length (xs ++ a ∷ rest)) (omega (arith, length-append xs (a ∷ rest))),
        if◌then◌else◌,
        set_behind xs a p rest,
      )
      refl

length_snoc : (xs : List ℕ) (p : ℕ) → length (xs ++ p ∷ []) ≡ length xs + 1
length_snoc xs p = length-append xs (p ∷ [])

-- The walk writes the queue behind what it has written.
gather_lem :
    (ps xs left : List ℕ) (cnt : ℕ)
    → length xs ≡ cnt
    → length ps ≤ length left
    → gather ps (xs ++ left) cnt ≡ some ((xs ++ ps) ++ drop (length ps) left, cnt + length ps)
unfolding gather
gather_lem [] xs left cnt e h =
    ap (λ ys. some (ys ++ left, cnt)) (sym (append_nil xs))
    ∙ ap (λ n. some ((xs ++ []) ++ left, n)) (omega arith)
gather_lem (p ∷ ps) xs [] cnt e h = absurd (omega arith)
gather_lem (p ∷ ps) xs (a ∷ left) cnt e h =
    rw
      (
        put_behind xs a p cnt left e,
        ◌>>=◌,
        gather_lem ps (xs ++ p ∷ []) left (cnt + 1) (omega (arith, length_snoc xs p)) (omega arith),
        shift_append xs p ps,
      )
      (ap (λ n. some ((xs ++ p ∷ ps) ++ drop (length ps) left, n)) (omega arith))

copy_out_lem :
    (ps xs tail left : List ℕ) (i : ℕ)
    → length xs ≡ i
    → length ps ≤ length left
    → copy_out (length ps) i (xs ++ (ps ++ tail)) (xs ++ left)
      ≡ some ((xs ++ ps) ++ drop (length ps) left)
unfolding copy_out
copy_out_lem [] xs tail left i e h = ap (λ ys. some (ys ++ left)) (sym (append_nil xs))
copy_out_lem (p ∷ ps) xs tail [] i e h = absurd (omega arith)
copy_out_lem (p ∷ ps) xs tail (a ∷ left) i e h =
    let read : get_elem? (xs ++ p ∷ (ps ++ tail)) i ≡ some p =
      rw (sym e) (elem_behind xs p (ps ++ tail)) in
    rw
      (
        read,
        ◌>>=◌,
        put_behind xs a p i left e,
        ◌>>=◌,
        sym (shift_append xs p (ps ++ tail)),
        copy_out_lem ps (xs ++ p ∷ []) tail left (i + 1) (omega (arith, length_snoc xs p))
            (omega arith),
        shift_append xs p ps,
      )
      refl

gather_overrun :
    (ps array : List ℕ) (cnt : ℕ)
    → cnt ≤ length array
    → length array < cnt + length ps
    → gather ps array cnt ≡ none
unfolding gather
gather_overrun [] array cnt low h = absurd (omega arith)
gather_overrun (p ∷ ps) array cnt low h = elim (Bool-cases (ltb cnt (length array))) [
  | inl b ↦
      rw (b, if◌then◌else◌, ◌>>=◌)
        (gather_overrun ps (set array cnt p) (cnt + 1) (ground (arith, length-set array cnt p, b))
          (omega (arith, length-set array cnt p, h)))
  | inr b ↦ rw (b, if◌then◌else◌, ◌>>=◌) refl
]

copy_out_overrun :
    (n i : ℕ) (source array : List ℕ)
    → i ≤ length array
    → length array < i + n
    → copy_out n i source array ≡ none
unfolding copy_out
copy_out_overrun zero i source array low h = absurd (omega arith)
copy_out_overrun (suc n) i source array low h = elim (Option-cases (get_elem? source i)) [
  | inl none_there ↦ rw (none_there, ◌>>=◌) refl
  | inr (p, is_p) ↦ elim (Bool-cases (ltb i (length array))) [
    | inl b ↦
        rw (is_p, ◌>>=◌, b, if◌then◌else◌, ◌>>=◌)
          (copy_out_overrun n (i + 1) source (set array i p)
            (ground (arith, length-set array i p, b)) (omega (arith, length-set array i p, h)))
    | inr b ↦ rw (is_p, ◌>>=◌, b, if◌then◌else◌, ◌>>=◌) refl
  ]
]

-- The result of an enumeration of `ps`: it writes the objects in order from the start of both arrays,
-- leaves what is behind them, and returns their number; or one of the arrays is too short, a fault.
pub Enumerates : List ℕ → List ℕ → List ℕ → Option ((List ℕ × List ℕ) × ℕ) → Type 0
Enumerates ps ret_objects objects r =
    ((length ps ≤ length ret_objects)
      × (length ps ≤ length objects)
      × (r
          ≡ some ((ps ++ drop (length ps) ret_objects, ps ++ drop (length ps) objects), length ps)))
    ⊎ (((length ret_objects < length ps) ⊎ (length objects < length ps)) × (r ≡ none))

enumerate-Enumerates :
    (ps ret_objects objects : List ℕ)
    → Enumerates ps ret_objects objects (enumerate ps ret_objects objects)
unfolding enumerate Enumerates
enumerate-Enumerates ps ret_objects objects = elim (dec_lt (length ret_objects) (length ps)) [
  | yes over ↦ inr (
    inl over,
    rw (gather_overrun ps ret_objects 0 (omega arith) (omega (arith, over)), ◌>>=◌) refl,
  )
  | no fits ↦
      let gathered : gather ps ret_objects 0
          ≡ some (ps ++ drop (length ps) ret_objects, length ps) =
        gather_lem ps [] ret_objects 0 refl (omega (arith, fits))
        ∙ ap (λ n. some (ps ++ drop (length ps) ret_objects, n)) (omega arith) in
      elim (dec_lt (length objects) (length ps)) [
        | yes over ↦ inr (
          inr over,
          rw
              (
                gathered,
                ◌>>=◌,
                copy_out_overrun (length ps) 0 (ps ++ drop (length ps) ret_objects) objects
                    (omega arith) (omega (arith, over)),
              )
              refl,
        )
        | no fits_too ↦ inl (
          omega (arith, fits),
          omega (arith, fits_too),
          rw
              (
                gathered,
                ◌>>=◌,
                copy_out_lem ps [] (drop (length ps) ret_objects) objects 0 refl
                    (omega (arith, fits_too)),
              )
              refl,
        )
      ]
]

-- The four enumerations, and how they fit together: an object is in the bucket of its number as often
-- as on the lists 1 and 2, in no other bucket, and never twice.
pub record Enumerated (i : ℕ) (ret_objects objects : List ℕ) (t : Tables) : Type 0 where
  pub by_hash :
      Enumerates
        (t.hash_table i)
        ret_objects
        objects
        (enumerate_objects_by_hash_index i ret_objects objects t)
  pub by_list1 :
      Enumerates t.queue1 ret_objects objects
        (enumerate_objects_by_list_num ListNum.list1 ret_objects objects t)
  pub by_list2 :
      Enumerates t.queue2 ret_objects objects
        (enumerate_objects_by_list_num ListNum.list2 ret_objects objects t)
  pub by_list3 :
      Enumerates t.queue3 ret_objects objects
        (enumerate_objects_by_list_num ListNum.list3 ret_objects objects t)
  pub agree :
      (p : ℕ)
      → count p (t.hash_table i)
        ≡ (if t.objnum p % hash_tbl_size == i then count p t.queue1 + count p t.queue2 else 0)
  pub once : (p : ℕ) → count p (t.hash_table i) ≤ 1

-- On well-formed tables, whatever the static and the caller's array hold: the enumeration of a bucket,
-- or of one of the three lists, writes the objects of that bucket or list in order from the start of
-- both arrays, leaves the rest of them, and returns how many objects it wrote, unless there are more
-- of them than an array has room for, which is a fault. The bucket has exactly the objects of the
-- first two lists whose number hashes to it, each once.
pub enumerate-Enumerated :
    (i : ℕ) (ret_objects objects : List ℕ) (t : Tables)
    → IsValid t
    → Enumerated i ret_objects objects t
unfolding enumerate_objects_by_hash_index enumerate_objects_by_list_num
enumerate-Enumerated i ret_objects objects t v = record {
  by_hash = enumerate-Enumerates (t.hash_table i) ret_objects objects;
  by_list1 = enumerate-Enumerates t.queue1 ret_objects objects;
  by_list2 = enumerate-Enumerates t.queue2 ret_objects objects;
  by_list3 = enumerate-Enumerates t.queue3 ret_objects objects;
  agree = λ p. v.bucket p i;
  once = λ p. ground (arith, v.bucket p i, v.once p);
}
