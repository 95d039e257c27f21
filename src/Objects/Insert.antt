-- ===== src/Objects/Insert.antt =====
-- `InsertObjectToTail` and `InsertObjectToHead` of OS/hw1/hw1.c.
use kw_home_work.Common.{
  ℕ, ◌+◌, ◌%◌, ◌<◌, ◌≡◌, ◌≢◌, refl, some, arith, ◌==◌, if◌then◌else◌, count, count-cons, count-snoc,
  Bool, not, ◌&&◌, List, [], ◌∷◌, ◌++◌,
}
use kw_home_work.Objects.{
  Tables, ListNum, is_list3, hash_tbl_size, insert_object_to_tail, insert_object_to_head,
  find_object_by_num, list_head,
}
use kw_home_work.Objects.Valid.{
  IsValid, Has, hashed, listed, find_object_by_num_of_Has, find_object_by_num_eq,
}

-- Where an insertion puts the object, and what it leaves alone.
pub record Placed (p n : ℕ) (l : ListNum) (ps bucket : List ℕ) (t t' : Tables) : Type 0 where
  pub on_list : list_head l t' ≡ ps
  pub other_lists : (m : ListNum) → m ≢ l → list_head m t' ≡ list_head m t
  pub in_bucket : t'.hash_table (n % hash_tbl_size) ≡ bucket
  pub other_buckets : (i : ℕ) → i ≢ n % hash_tbl_size → t'.hash_table i ≡ t.hash_table i
  pub number : t'.objnum p ≡ n
  pub other_numbers : (q : ℕ) → q ≢ p → t'.objnum q ≡ t.objnum q

-- What an insertion of the object `p` as number `n` does: the list and the bucket of the number become
-- `ps` and `bucket`, every other list and bucket and the number of every other object are as before,
-- and the searches see the object.
pub record Inserted (p n : ℕ) (l : ListNum) (ps bucket : List ℕ) (t t' : Tables) : Type 0 where
  pub placed : Placed p n l ps bucket t t'
  pub valid : IsValid t'
  pub found : find_object_by_num n t' ≡ some p
  pub others : (m : ℕ) → m ≢ n → find_object_by_num m t' ≡ find_object_by_num m t

-- And what it does to the queues, at whichever end it puts the object; `h` tells if it is hashed.
record Added (p n : ℕ) (h : Bool) (t t' : Tables) : Type 0 where
  numbers : (q : ℕ) → t'.objnum q ≡ (if q == p then n else t.objnum q)
  buckets :
      (q i : ℕ)
      → count q (t'.hash_table i)
        ≡ count q (t.hash_table i) + (if h && (p == q) && (n % hash_tbl_size == i) then 1 else 0)
  in_hash : (q : ℕ) → hashed q t' ≡ hashed q t + (if h && (p == q) then 1 else 0)
  on_lists : (q : ℕ) → listed q t' ≡ listed q t + (if p == q then 1 else 0)

module _ {t : Tables} (p n : ℕ) (v : IsValid t) (fresh : listed p t ≡ 0)
    (unused : (q : ℕ) → Has t n q → ⊥) where
  other : (q : ℕ) → 0 < listed q t → t.objnum q ≡ n → ⊥
  other q k e = unused q (record { on_list = k; number = e })

  module _ {h : Bool} {l : ListNum} {ps bucket : List ℕ} {t' : Tables} (a : Added p n h t t')
      (placed : Placed p n l ps bucket t t') where
    added-IsValid : IsValid t'
    added-IsValid = record {
      bucket = λ q i. ground (arith, v.bucket q i, a.buckets q i, a.numbers q, a.in_hash q);
      once = λ q. ground (arith, v.once q, a.on_lists q);
      unique = λ q r. ground (
        arith,
        v.unique q r,
        a.on_lists q,
        a.on_lists r,
        a.numbers q,
        a.numbers r,
        other q,
        other r,
      );
    }

    Has-to : (m : ℕ) → m ≢ n → (q : ℕ) → Has t m q → Has t' m q
    Has-to m ne q k = record {
      on_list = omega (arith, a.on_lists q, k.on_list);
      number = ground (arith, a.numbers q, k.on_list, k.number);
    }

    Has-from : (m : ℕ) → m ≢ n → (q : ℕ) → Has t' m q → Has t m q
    Has-from m ne q k = record {
      on_list = ground (arith, a.on_lists q, a.numbers q, k.on_list, k.number);
      number = ground (arith, a.numbers q, k.number);
    }

    added-Inserted : Inserted p n l ps bucket t t'
    added-Inserted = record {
      placed = placed;
      valid = added-IsValid;
      found =
          find_object_by_num_of_Has n added-IsValid p (record {
            on_list = ground (arith, a.on_lists p);
            number = ground (arith, a.numbers p);
          });
      others = λ m ne. find_object_by_num_eq m v added-IsValid (Has-to m ne) (Has-from m ne);
    }

tail-Added :
    (p n : ℕ) (l : ListNum) (t : Tables)
    → Added p n (not (is_list3 l)) t (insert_object_to_tail p n l t)
unfolding insert_object_to_tail
tail-Added p n ListNum.list1 t = record {
  numbers = λ q. refl;
  buckets = λ q i. ground (arith, count-snoc q p (t.hash_table (n % hash_tbl_size)));
  in_hash = λ q. ground (arith, count-snoc q p t.queue1);
  on_lists = λ q. ground (arith, count-snoc q p t.queue1);
}
tail-Added p n ListNum.list2 t = record {
  numbers = λ q. refl;
  buckets = λ q i. ground (arith, count-snoc q p (t.hash_table (n % hash_tbl_size)));
  in_hash = λ q. ground (arith, count-snoc q p t.queue2);
  on_lists = λ q. ground (arith, count-snoc q p t.queue2);
}
tail-Added p n ListNum.list3 t = record {
  numbers = λ q. refl;
  buckets = λ q i. ground arith;
  in_hash = λ q. ground arith;
  on_lists = λ q. ground (arith, count-snoc q p t.queue3);
}

head-Added :
    (p n : ℕ) (l : ListNum) (t : Tables)
    → Added p n (not (is_list3 l)) t (insert_object_to_head p n l t)
unfolding insert_object_to_head
head-Added p n ListNum.list1 t = record {
  numbers = λ q. refl;
  buckets = λ q i. ground (arith, count-cons q p (t.hash_table (n % hash_tbl_size)));
  in_hash = λ q. ground (arith, count-snoc q p t.queue1);
  on_lists = λ q. ground (arith, count-snoc q p t.queue1);
}
head-Added p n ListNum.list2 t = record {
  numbers = λ q. refl;
  buckets = λ q i. ground (arith, count-cons q p (t.hash_table (n % hash_tbl_size)));
  in_hash = λ q. ground (arith, count-snoc q p t.queue2);
  on_lists = λ q. ground (arith, count-snoc q p t.queue2);
}
head-Added p n ListNum.list3 t = record {
  numbers = λ q. refl;
  buckets = λ q i. ground arith;
  in_hash = λ q. ground arith;
  on_lists = λ q. ground (arith, count-cons q p t.queue3);
}

-- The list and the bucket after an insertion at the tail: the object comes last in both, and the third
-- list is not hashed.
abbrev pub tail_list : ℕ → ListNum → Tables → List ℕ
tail_list p l t = list_head l t ++ p ∷ []

abbrev pub tail_bucket : ℕ → ℕ → ListNum → Tables → List ℕ
tail_bucket p n l t =
    if is_list3 l
    then t.hash_table (n % hash_tbl_size)
    else t.hash_table (n % hash_tbl_size) ++ p ∷ []

-- And at the head: the object comes first in the bucket, and in the third list; in the other two lists
-- it comes last.
abbrev pub head_list : ℕ → ListNum → Tables → List ℕ
head_list p l t = if is_list3 l then p ∷ list_head l t else list_head l t ++ p ∷ []

abbrev pub head_bucket : ℕ → ℕ → ListNum → Tables → List ℕ
head_bucket p n l t =
    if is_list3 l then t.hash_table (n % hash_tbl_size) else p ∷ t.hash_table (n % hash_tbl_size)

tail-Placed :
    (p n : ℕ) (l : ListNum) (t : Tables)
    → Placed p n l (tail_list p l t) (tail_bucket p n l t) t (insert_object_to_tail p n l t)
unfolding insert_object_to_tail
tail-Placed p n ListNum.list1 t = record {
  on_list = refl;
  other_lists = λ m.
      elim m
        as (λ k.
          k ≢ ListNum.list1
          → list_head k (insert_object_to_tail p n ListNum.list1 t) ≡ list_head k t) [
            | ListNum.list1 ↦ λ ne. absurd (ne refl)
            | ListNum.list2 ↦ λ ne. refl
            | ListNum.list3 ↦ λ ne. refl
          ];
  in_bucket = ground arith;
  other_buckets = λ i ne. ground (arith, ne);
  number = ground arith;
  other_numbers = λ q ne. ground (arith, ne);
}
tail-Placed p n ListNum.list2 t = record {
  on_list = refl;
  other_lists = λ m.
      elim m
        as (λ k.
          k ≢ ListNum.list2
          → list_head k (insert_object_to_tail p n ListNum.list2 t) ≡ list_head k t) [
            | ListNum.list1 ↦ λ ne. refl
            | ListNum.list2 ↦ λ ne. absurd (ne refl)
            | ListNum.list3 ↦ λ ne. refl
          ];
  in_bucket = ground arith;
  other_buckets = λ i ne. ground (arith, ne);
  number = ground arith;
  other_numbers = λ q ne. ground (arith, ne);
}
tail-Placed p n ListNum.list3 t = record {
  on_list = refl;
  other_lists = λ m.
      elim m
        as (λ k.
          k ≢ ListNum.list3
          → list_head k (insert_object_to_tail p n ListNum.list3 t) ≡ list_head k t) [
            | ListNum.list1 ↦ λ ne. refl
            | ListNum.list2 ↦ λ ne. refl
            | ListNum.list3 ↦ λ ne. absurd (ne refl)
          ];
  in_bucket = refl;
  other_buckets = λ i ne. refl;
  number = ground arith;
  other_numbers = λ q ne. ground (arith, ne);
}

head-Placed :
    (p n : ℕ) (l : ListNum) (t : Tables)
    → Placed p n l (head_list p l t) (head_bucket p n l t) t (insert_object_to_head p n l t)
unfolding insert_object_to_head
head-Placed p n ListNum.list1 t = record {
  on_list = refl;
  other_lists = λ m.
      elim m
        as (λ k.
          k ≢ ListNum.list1
          → list_head k (insert_object_to_head p n ListNum.list1 t) ≡ list_head k t) [
            | ListNum.list1 ↦ λ ne. absurd (ne refl)
            | ListNum.list2 ↦ λ ne. refl
            | ListNum.list3 ↦ λ ne. refl
          ];
  in_bucket = ground arith;
  other_buckets = λ i ne. ground (arith, ne);
  number = ground arith;
  other_numbers = λ q ne. ground (arith, ne);
}
head-Placed p n ListNum.list2 t = record {
  on_list = refl;
  other_lists = λ m.
      elim m
        as (λ k.
          k ≢ ListNum.list2
          → list_head k (insert_object_to_head p n ListNum.list2 t) ≡ list_head k t) [
            | ListNum.list1 ↦ λ ne. refl
            | ListNum.list2 ↦ λ ne. absurd (ne refl)
            | ListNum.list3 ↦ λ ne. refl
          ];
  in_bucket = ground arith;
  other_buckets = λ i ne. ground (arith, ne);
  number = ground arith;
  other_numbers = λ q ne. ground (arith, ne);
}
head-Placed p n ListNum.list3 t = record {
  on_list = refl;
  other_lists = λ m.
      elim m
        as (λ k.
          k ≢ ListNum.list3
          → list_head k (insert_object_to_head p n ListNum.list3 t) ≡ list_head k t) [
            | ListNum.list1 ↦ λ ne. refl
            | ListNum.list2 ↦ λ ne. refl
            | ListNum.list3 ↦ λ ne. absurd (ne refl)
          ];
  in_bucket = refl;
  other_buckets = λ i ne. refl;
  number = ground arith;
  other_numbers = λ q ne. ground (arith, ne);
}

module _ {t : Tables} (p n : ℕ) (l : ListNum) (v : IsValid t) (fresh : listed p t ≡ 0)
    (unused : (q : ℕ) → Has t n q → ⊥) where
  -- An object that is on no list, inserted at the tail under a number that no listed object has, comes
  -- last on its list and, unless that is the third, in the bucket of the number; the other lists,
  -- buckets and numbers are as before. It is then found by the number, every other search is as
  -- before, and the tables stay well formed.
  pub insert_object_to_tail-Inserted :
      Inserted p n l (tail_list p l t) (tail_bucket p n l t) t (insert_object_to_tail p n l t)
  insert_object_to_tail-Inserted =
      added-Inserted p n v fresh unused (tail-Added p n l t) (tail-Placed p n l t)

  -- An object that is on no list, inserted at the head under a number that no listed object has, comes
  -- first on the third list, but last on the first or second, where it comes first in the bucket of
  -- the number; the other lists, buckets and numbers are as before. It is then found by the number,
  -- every other search is as before, and the tables stay well formed.
  pub insert_object_to_head-Inserted :
      Inserted p n l (head_list p l t) (head_bucket p n l t) t (insert_object_to_head p n l t)
  insert_object_to_head-Inserted =
      added-Inserted p n v fresh unused (head-Added p n l t) (head-Placed p n l t)
