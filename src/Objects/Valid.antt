-- ===== src/Objects/Valid.antt =====
-- The invariant of the object tables of OS/hw1/hw1.c, and what a search by number finds under it.
use kw_home_work.Common.{
  ℕ, ◌+◌, ◌%◌, ◌≤◌, ◌<◌, ◌≡◌, refl, none, some, arith, inl, inr, ◌==◌, if◌then◌else◌, count,
  count-nil, Option-cases,
}
use kw_home_work.Queue.{find_by-some, find_by-none}
use kw_home_work.Objects.{Tables, hash_tbl_size, init, find_object_by_num}

abbrev pub hashed : ℕ → Tables → ℕ
hashed p t = count p t.queue1 + count p t.queue2

-- How often the object stands on the three lists.
abbrev pub listed : ℕ → Tables → ℕ
listed p t = count p t.queue1 + count p t.queue2 + count p t.queue3

-- An object is on one list at most, and in its own bucket exactly if that is the first or second;
-- two listed objects have different numbers.
pub record IsValid (t : Tables) : Type 0 where
  pub bucket :
      (p i : ℕ)
      → count p (t.hash_table i) ≡ (if t.objnum p % hash_tbl_size == i then hashed p t else 0)
  pub once : (p : ℕ) → listed p t ≤ 1
  pub unique : (p q : ℕ) → 0 < listed p t → 0 < listed q t → t.objnum p ≡ t.objnum q → p ≡ q

pub record Has (t : Tables) (n p : ℕ) : Type 0 where
  pub on_list : 0 < listed p t
  pub number : t.objnum p ≡ n

module _ {t : Tables} (n : ℕ) where
  pub find_object_by_num-Has : (p : ℕ) → find_object_by_num n t ≡ some p → Has t n p
  unfolding find_object_by_num
  find_object_by_num-Has p h = ground (
    arith,
    find_by-some t.objnum n p t.queue1,
    find_by-some t.objnum n p t.queue2,
    find_by-some t.objnum n p t.queue3,
  )

  pub find_object_by_num-none : (p : ℕ) → find_object_by_num n t ≡ none → Has t n p → ⊥
  unfolding find_object_by_num
  find_object_by_num-none p h k = ground (
    arith,
    k.on_list,
    k.number,
    find_by-none t.objnum n p t.queue1,
    find_by-none t.objnum n p t.queue2,
    find_by-none t.objnum n p t.queue3,
  )

  pub find_object_by_num_absent : ((p : ℕ) → Has t n p → ⊥) → find_object_by_num n t ≡ none
  find_object_by_num_absent out = elim (Option-cases (find_object_by_num n t)) [
    | inl e ↦ e
    | inr (p, e) ↦ absurd (out p (find_object_by_num-Has p e))
  ]

  -- On well-formed tables the search finds the listed object that has the number.
  pub find_object_by_num_of_Has : IsValid t → (p : ℕ) → Has t n p → find_object_by_num n t ≡ some p
  find_object_by_num_of_Has v p k = elim (Option-cases (find_object_by_num n t)) [
    | inl e ↦ absurd (find_object_by_num-none p e k)
    | inr (q, e) ↦
        let k' = find_object_by_num-Has q e in
        ground (arith, v.unique p q k.on_list k'.on_list, k.number, k'.number)
  ]

-- Equal members with a number make equal searches.
pub find_object_by_num_eq :
    {t t' : Tables} (n : ℕ)
    → IsValid t
    → IsValid t'
    → ((p : ℕ) → Has t n p → Has t' n p)
    → ((p : ℕ) → Has t' n p → Has t n p)
    → find_object_by_num n t' ≡ find_object_by_num n t
find_object_by_num_eq {t} {t'} n v v' to from = elim (Option-cases (find_object_by_num n t)) [
  | inl e ↦ rw e (find_object_by_num_absent n (λ p k. find_object_by_num-none n p e (from p k)))
  | inr (p, e) ↦ rw e (find_object_by_num_of_Has n v' p (to p (find_object_by_num-Has n p e)))
]

pub init-IsValid :
    (t : Tables) → IsValid (init t) × ((n : ℕ) → find_object_by_num n (init t) ≡ none)
unfolding init find_object_by_num
init-IsValid t = (
  record {
    bucket = λ p i. ground (arith, count-nil p);
    once = λ p. ground (arith, count-nil p);
    unique = λ p q. ground (arith, count-nil p);
  },
  λ n. refl,
)
