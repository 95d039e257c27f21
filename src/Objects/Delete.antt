-- ===== src/Objects/Delete.antt =====
-- `DeleteObject` and `DeleteObjectByNum` of OS/hw1/hw1.c.
use kw_home_work.Common.{
  ℕ, ◌+◌, ◌%◌, ◌⊎◌, ◌<◌, ◌≡◌, ◌≢◌, refl, none, some, List, arith, inl, inr, ◌==◌, if◌then◌else◌,
  count, Bool, true, false, not, ◌&&◌, Option-cases, Bool-cases, ltb,
}
use kw_home_work.Queue.{erase, remove-erase, count-erase, find_by, find_by-some, find_by-none}
use kw_home_work.Objects.{
  Tables, ListNum, list_head, set_list, set_bucket, is_list3, is_some, hash_tbl_size,
  find_object_by_num, last_list, unlink, delete_object, delete_object_by_num,
}
use kw_home_work.Objects.Valid.{
  IsValid, Has, hashed, listed, find_object_by_num-Has, find_object_by_num_absent,
  find_object_by_num_of_Has, find_object_by_num_eq,
}

-- What the removal of the object `p`, of number `n`, does to the queues.
record Dropped (p n : ℕ) (h : Bool) (t t' : Tables) : Type 0 where
  numbers : (q : ℕ) → t'.objnum q ≡ t.objnum q
  buckets :
      (q i : ℕ)
      → count q (t.hash_table i)
        ≡ count q (t'.hash_table i) + (if h && (p == q) && (n % hash_tbl_size == i) then 1 else 0)
  in_hash : (q : ℕ) → hashed q t ≡ hashed q t' + (if h && (p == q) then 1 else 0)
  on_lists : (q : ℕ) → listed q t ≡ listed q t' + (if p == q then 1 else 0)

-- And for the searches.
pub record Deleted (p n : ℕ) (t t' : Tables) : Type 0 where
  pub valid : IsValid t'
  pub gone : find_object_by_num n t' ≡ none
  pub unlisted : listed p t' ≡ 0
  pub others : (m : ℕ) → m ≢ n → find_object_by_num m t' ≡ find_object_by_num m t

module _ {t : Tables} (p n : ℕ) (v : IsValid t) (k : Has t n p) where
  module _ {h : Bool} {t' : Tables} (d : Dropped p n h t t') where
    dropped-IsValid : IsValid t'
    dropped-IsValid = record {
      bucket =
          λ q i. ground (arith, v.bucket q i, d.buckets q i, d.numbers q, d.in_hash q, k.number);
      once = λ q. ground (arith, v.once q, d.on_lists q);
      unique =
          λ q r. ground (arith, v.unique q r, d.on_lists q, d.on_lists r, d.numbers q, d.numbers r);
    }

    Has-before : (m q : ℕ) → Has t' m q → Has t m q
    Has-before m q j = record {
      on_list = omega (arith, d.on_lists q, j.on_list);
      number = ground (arith, d.numbers q, j.number);
    }

    Has-after : (m : ℕ) → m ≢ n → (q : ℕ) → Has t m q → Has t' m q
    Has-after m ne q j = record {
      on_list = ground (arith, d.on_lists q, j.on_list, j.number, k.number);
      number = ground (arith, d.numbers q, j.number);
    }

    no_more : (q : ℕ) → Has t' n q → ⊥
    no_more q j = ground (
      arith,
      v.unique p q,
      k.on_list,
      k.number,
      v.once q,
      d.on_lists q,
      j.on_list,
      j.number,
      d.numbers q,
    )

    dropped-Deleted : Deleted p n t t'
    dropped-Deleted = record {
      valid = dropped-IsValid;
      gone = find_object_by_num_absent n no_more;
      unlisted = ground (arith, d.on_lists p, v.once p);
      others = λ m ne. find_object_by_num_eq m v dropped-IsValid (Has-after m ne) (Has-before m);
    }

-- The tables without the object.
removed : ℕ → ℕ → ListNum → Tables → Tables
removed p n l t =
    let t1 = set_list l (erase p (list_head l t)) t in
    let idx = n % hash_tbl_size in
    if is_list3 l then t1 else set_bucket idx (erase p (t.hash_table idx)) t1

module _ {t : Tables} (p n : ℕ) (v : IsValid t) (number : t.objnum p ≡ n) where
  in_bucket : 0 < hashed p t → 0 < count p (t.hash_table (n % hash_tbl_size))
  in_bucket h = ground (arith, v.bucket p (n % hash_tbl_size))

  removed-Dropped :
      (l : ListNum)
      → 0 < count p (list_head l t)
      → Dropped p n (not (is_list3 l)) t (removed p n l t)
  unfolding removed
  removed-Dropped ListNum.list1 on = record {
    numbers = λ q. refl;
    buckets = λ q i.
        ground
          (arith, in_bucket (ground arith), count-erase p q (t.hash_table (n % hash_tbl_size)));
    in_hash = λ q. ground (arith, count-erase p q t.queue1 on);
    on_lists = λ q. ground (arith, count-erase p q t.queue1 on);
  }
  removed-Dropped ListNum.list2 on = record {
    numbers = λ q. refl;
    buckets = λ q i.
        ground
          (arith, in_bucket (ground arith), count-erase p q (t.hash_table (n % hash_tbl_size)));
    in_hash = λ q. ground (arith, count-erase p q t.queue2 on);
    on_lists = λ q. ground (arith, count-erase p q t.queue2 on);
  }
  removed-Dropped ListNum.list3 on = record {
    numbers = λ q. refl;
    buckets = λ q i. ground arith;
    in_hash = λ q. ground arith;
    on_lists = λ q. ground (arith, count-erase p q t.queue3 on);
  }

  unlink-removed :
      (l : ListNum) → 0 < count p (list_head l t) → unlink p n l t ≡ some (removed p n l t)
  unfolding unlink removed
  unlink-removed ListNum.list1 on = rw (
    remove-erase p t.queue1 on,
    remove-erase p (t.hash_table (n % hash_tbl_size)) (in_bucket (omega arith)),
  )
  unlink-removed ListNum.list2 on = rw (
    remove-erase p t.queue2 on,
    remove-erase p (t.hash_table (n % hash_tbl_size)) (in_bucket (omega arith)),
  )
  unlink-removed ListNum.list3 on = rw (remove-erase p t.queue3 on)

-- A walk over a list meets the number exactly if the object is on that list.
seen :
    {t : Tables} (p n : ℕ) (ps : List ℕ)
    → IsValid t
    → Has t n p
    → ((q : ℕ) → 0 < count q ps → 0 < listed q t)
    → is_some (find_by t.objnum n ps) ≡ ltb 0 (count p ps)
seen {t} p n ps v k sub = elim (Option-cases (find_by t.objnum n ps)) [
  | inl e ↦ elim (Bool-cases (ltb 0 (count p ps))) [
    | inl on ↦ absurd (find_by-none t.objnum n p ps e (ground arith) k.number)
    | inr off ↦ rw (e, off)
  ]
  | inr (q, e) ↦
      let f = find_by-some t.objnum n q ps e in
      ground (arith, v.unique p q k.on_list (sub q f.0), k.number)
]

module _ {t : Tables} (p n : ℕ) (v : IsValid t) (k : Has t n p) where
  -- The list that the second walk ends with is the one that holds the object.
  last_list_lem : (l : ListNum) × (last_list n t ≡ some l) × (0 < count p (list_head l t))
  unfolding last_list
  last_list_lem =
      let s1 = seen p n t.queue1 v k (λ q h. omega arith) in
      let s2 = seen p n t.queue2 v k (λ q h. omega arith) in
      let s3 = seen p n t.queue3 v k (λ q h. omega arith) in
      elim (Bool-cases (ltb 0 (count p t.queue3))) [
        | inl on ↦ (ListNum.list3, ground arith, ground arith)
        | inr off3 ↦ elim (Bool-cases (ltb 0 (count p t.queue2))) [
          | inl on ↦ (ListNum.list2, ground arith, ground arith)
          | inr off2 ↦ (ListNum.list1, ground (arith, k.on_list), ground (arith, k.on_list))
        ]
      ]

  found-Deleted : (t' : Tables) × (delete_object_by_num n t ≡ some (true, t')) × Deleted p n t t'
  unfolding delete_object_by_num
  found-Deleted =
      let (l, last, on) = last_list_lem in
      (
        removed p n l t,
        rw (find_object_by_num_of_Has n v p k, delete_object_by_num)
            (rw (last, unlink-removed p n v k.number l on) refl),
        dropped-Deleted p n v k (removed-Dropped p n v k.number l on),
      )

-- A deletion by number on well-formed tables: with no such object it answers FALSE and changes nothing;
-- else it answers TRUE, the object is on no list and no longer found, every other search is as
-- before, and the tables stay well formed.
pub delete_object_by_num-Deleted :
    {t : Tables} (n : ℕ)
    → IsValid t
    → ((find_object_by_num n t ≡ none) × (delete_object_by_num n t ≡ some (false, t)))
      ⊎ ((p : ℕ) × (t' : Tables) × (find_object_by_num n t ≡ some p)
          × (delete_object_by_num n t ≡ some (true, t'))
          × Deleted p n t t')
unfolding delete_object_by_num
delete_object_by_num-Deleted {t} n v = elim (Option-cases (find_object_by_num n t)) [
  | inl e ↦ inl (e, rw (e, delete_object_by_num) refl)
  | inr (p, e) ↦
      let (t', ran, d) = found-Deleted p n v (find_object_by_num-Has n p e) in
      inr (p, t', e, ran, d)
]

-- On well-formed tables `DeleteObject` is the deletion by the object's number.
pub delete_object-by_num :
    {t : Tables} (p : ℕ) → IsValid t → delete_object p t ≡ delete_object_by_num (t.objnum p) t
unfolding delete_object delete_object_by_num
delete_object-by_num {t} p v = elim (Option-cases (find_object_by_num (t.objnum p) t)) [
  | inl e ↦ rw (e, delete_object, delete_object_by_num) refl
  | inr (q, e) ↦
      rw (e, delete_object, delete_object_by_num)
        (rw (find_object_by_num-Has (t.objnum p) q e).number refl)
]
