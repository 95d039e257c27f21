-- ===== src/Tests/Tables.antt =====
-- The object tables of OS/hw1/hw1.c on a few objects, and the theorems about them there.
use kw_home_work.Common.{ℕ, ◌≡◌, ◌⊎◌, refl, true, false, none, some, [], ◌∷◌, arith, count}
use kw_home_work.Queue.{find_by, remove}
use kw_home_work.Objects.{
  Tables, ListNum, init, insert_object_to_tail, insert_object_to_head, find_object_by_num,
  last_list, unlink, delete_object, delete_object_by_num, gather, copy_out, enumerate,
  enumerate_objects_by_hash_index,
}
use kw_home_work.Objects.Valid.{IsValid, Has, listed, init-IsValid}
use kw_home_work.Objects.Insert.{
  Inserted, insert_object_to_tail-Inserted, insert_object_to_head-Inserted,
}
use kw_home_work.Objects.Enumerate.{Enumerated, enumerate-Enumerated}
use kw_home_work.Objects.Delete.{Deleted, delete_object_by_num-Deleted, delete_object-by_num}

program : Unit {0}
unfolding find_by remove init insert_object_to_tail insert_object_to_head find_object_by_num
    last_list unlink delete_object delete_object_by_num count gather copy_out enumerate
    enumerate_objects_by_hash_index
program = tt

abbrev raw : Tables
raw = record { objnum = λ _. 0; hash_table = λ _. []; queue1 = []; queue2 = []; queue3 = [] }

abbrev empty : Tables
empty = init raw

empty-IsValid : IsValid empty × ((n : ℕ) → find_object_by_num n empty ≡ none)
empty-IsValid = init-IsValid raw

-- Objects 10, 11 and 12 as numbers 8, 16 and 3.
abbrev three : Tables
three =
    insert_object_to_head 12 3 ListNum.list3
      (insert_object_to_head 11 16 ListNum.list2 (insert_object_to_tail 10 8 ListNum.list1 empty))

three_found : find_object_by_num 16 three ≡ some 11
unfolding program
three_found = refl

three_bucket : three.hash_table 0 ≡ 11 ∷ 10 ∷ []
unfolding program
three_bucket = refl

unlisted : listed 10 empty ≡ 0
unfolding program
unlisted = refl

unused : (q : ℕ) → Has empty 8 q → ⊥
unfolding program
unused q k = omega (arith, k.on_list)

insert_object_to_tail-Inserted_example :
    Inserted 10 8 ListNum.list1
      (10 ∷ [])
      (10 ∷ [])
      empty
      (insert_object_to_tail 10 8 ListNum.list1 empty)
unfolding program
insert_object_to_tail-Inserted_example =
    insert_object_to_tail-Inserted 10 8 ListNum.list1 empty-IsValid.0 unlisted unused

insert_object_to_head-Inserted_example :
    Inserted 10 8 ListNum.list3 (10 ∷ []) [] empty (insert_object_to_head 10 8 ListNum.list3 empty)
unfolding program
insert_object_to_head-Inserted_example =
    insert_object_to_head-Inserted 10 8 ListNum.list3 empty-IsValid.0 unlisted unused

abbrev one : Tables
one = insert_object_to_tail 10 8 ListNum.list1 empty

one-IsValid : IsValid one
one-IsValid =
    (insert_object_to_tail-Inserted 10 8 ListNum.list1 empty-IsValid.0 unlisted unused).valid

one-Has : Has one 8 10
unfolding program
one-Has = record { on_list = omega arith; number = refl }

delete_object_by_num-Deleted_example :
    ((find_object_by_num 8 one ≡ none) × (delete_object_by_num 8 one ≡ some (false, one)))
    ⊎ ((p : ℕ) × (t' : Tables) × (find_object_by_num 8 one ≡ some p)
        × (delete_object_by_num 8 one ≡ some (true, t'))
        × Deleted p 8 one t')
delete_object_by_num-Deleted_example = delete_object_by_num-Deleted 8 one-IsValid

delete_object-by_num_example : delete_object 10 one ≡ delete_object_by_num (one.objnum 10) one
delete_object-by_num_example = delete_object-by_num 10 one-IsValid

-- Two objects are written over the start of an array of three; an array of one is too short.
two_written :
    enumerate_objects_by_hash_index 0 (0 ∷ 0 ∷ 0 ∷ []) (5 ∷ 6 ∷ 7 ∷ []) three
    ≡ some ((11 ∷ 10 ∷ 0 ∷ [], 11 ∷ 10 ∷ 7 ∷ []), 2)
unfolding program
two_written = refl

too_short : enumerate_objects_by_hash_index 0 (0 ∷ 0 ∷ 0 ∷ []) (5 ∷ []) three ≡ none
unfolding program
too_short = refl

enumerate-Enumerated_example : Enumerated 0 (0 ∷ 0 ∷ []) (5 ∷ 6 ∷ []) one
enumerate-Enumerated_example = enumerate-Enumerated 0 (0 ∷ 0 ∷ []) (5 ∷ 6 ∷ []) one one-IsValid
