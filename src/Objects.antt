-- ===== src/Objects.antt =====
-- OS/hw1/hw1.h and OS/hw1/hw1.c: objects on three lists, with a hash table over the first two.
-- An `Object` lives at an address, and the queues hold addresses.
pub mod Valid
pub mod Insert
pub mod Delete
pub mod Enumerate
use kw_home_work.Common.{
  ℕ, zero, suc, ◌+◌, ◌%◌, Bool, true, false, Option, none, some, List, [], ◌∷◌, ◌==◌, ltb,
  if◌then◌else◌, length, ◌>>=◌, update, get_elem?, set,
}
use kw_home_work.Queue.{insert_head, insert_tail, remove, find_by}

abbrev pub hash_tbl_size : ℕ
hash_tbl_size = 8

pub data ListNum : Type 0 where
  list1 list2 list3 : ListNum

-- `ppHashTable`, the three queues of `ppListHead`, and the numbers of the objects.
pub record Tables : Type 0 where
  pub objnum : ℕ → ℕ
  pub hash_table : ℕ → List ℕ
  pub queue1 : List ℕ
  pub queue2 : List ℕ
  pub queue3 : List ℕ

abbrev pub list_head : ListNum → Tables → List ℕ
list_head ListNum.list1 t = t.queue1
list_head ListNum.list2 t = t.queue2
list_head ListNum.list3 t = t.queue3

abbrev pub set_list : ListNum → List ℕ → Tables → Tables
set_list ListNum.list1 ps t = record t { queue1 = ps }
set_list ListNum.list2 ps t = record t { queue2 = ps }
set_list ListNum.list3 ps t = record t { queue3 = ps }

abbrev pub is_list3 : ListNum → Bool
is_list3 ListNum.list3 = true
is_list3 _ = false

unfoldable pub init : Tables → Tables
init t = record t { hash_table = λ _. []; queue1 = []; queue2 = []; queue3 = [] }

-- The change of one bucket of `ppHashTable`.
abbrev pub set_bucket : ℕ → List ℕ → Tables → Tables
set_bucket idx ps t = record t { hash_table = update t.hash_table idx ps }

unfoldable pub insert_object_to_tail : ℕ → ℕ → ListNum → Tables → Tables
insert_object_to_tail p obj_num list_num t =
    let t1 = record t { objnum = update t.objnum p obj_num } in
    let idx = obj_num % hash_tbl_size in
    let t2 =
      if is_list3 list_num then t1 else set_bucket idx (insert_tail p (t1.hash_table idx)) t1 in
    set_list list_num (insert_tail p (list_head list_num t2)) t2

unfoldable pub insert_object_to_head : ℕ → ℕ → ListNum → Tables → Tables
insert_object_to_head p obj_num list_num t =
    let t1 = record t { objnum = update t.objnum p obj_num } in
    let idx = obj_num % hash_tbl_size in
    let t2 =
      if is_list3 list_num then t1 else set_bucket idx (insert_head p (t1.hash_table idx)) t1 in
    if is_list3 list_num
    then set_list list_num (insert_head p (list_head list_num t2)) t2
    else set_list list_num (insert_tail p (list_head list_num t2)) t2

abbrev pub or_else : Option ℕ → Option ℕ → Option ℕ
or_else (some p) q = some p
or_else none q = q

-- The three lists are walked in turn.
unfoldable pub find_object_by_num : ℕ → Tables → Option ℕ
unfolding find_by
find_object_by_num objnum t =
    or_else (find_by t.objnum objnum t.queue1)
      (or_else (find_by t.objnum objnum t.queue2) (find_by t.objnum objnum t.queue3))

abbrev pub is_some : Option ℕ → Bool
is_some none = false
is_some (some p) = true

-- The second walk of the deletions: `listNum` ends as the last list that has the number. It stays
-- uninitialised, here `none`, if no list has it.
unfoldable pub last_list : ℕ → Tables → Option ListNum
unfolding find_by
last_list n t =
    if is_some (find_by t.objnum n t.queue3)
    then some ListNum.list3
    else if is_some (find_by t.objnum n t.queue2)
    then some ListNum.list2
    else if is_some (find_by t.objnum n t.queue1)
    then some ListNum.list1
    else none

-- `foundObj` is taken off the list, and off its bucket unless that is the third list.
unfoldable pub unlink : ℕ → ℕ → ListNum → Tables → Option Tables
unlink found n list_num t = do
  ps ← remove found (list_head list_num t)
  let t1 = set_list list_num ps t
  let idx = n % hash_tbl_size
  if is_list3 list_num
      then some t1
      else do bucket ← remove found (t1.hash_table idx); some (set_bucket idx bucket t1)

unfoldable pub delete_object_by_num : ℕ → Tables → Option (Bool × Tables)
delete_object_by_num obj_num t = elim (find_object_by_num obj_num t) [
  | none ↦ some (false, t)
  | some found ↦ do
    list_num ← last_list obj_num t
    t1 ← unlink found obj_num list_num t
    some (true, t1)
]

unfoldable pub delete_object : ℕ → Tables → Option (Bool × Tables)
delete_object p t = elim (find_object_by_num (t.objnum p) t) [
  | none ↦ some (false, t)
  | some found ↦ do
    list_num ← last_list (t.objnum p) t
    t1 ← unlink found (t.objnum found) list_num t
    some (true, t1)
]

-- A write to an array; outside it, a fault.
abbrev pub put : ℕ → ℕ → List ℕ → Option (List ℕ)
put i p array = if ltb i (length array) then some (set array i p) else none

-- The walk over the queue, which writes the objects to `retObjects`.
unfoldable pub gather : List ℕ → List ℕ → ℕ → Option (List ℕ × ℕ)
gather [] ret_objects cnt = some (ret_objects, cnt)
gather (iter ∷ rest) ret_objects cnt = do
  ret_objects1 ← put cnt iter ret_objects
  gather rest ret_objects1 (cnt + 1)

-- The rounds left of the loop that copies `retObjects` to the caller's array, and its counter.
unfoldable pub copy_out : ℕ → ℕ → List ℕ → List ℕ → Option (List ℕ)
copy_out zero i ret_objects objects = some objects
copy_out (suc n) i ret_objects objects = do
  p ← get_elem? ret_objects i
  objects1 ← put i p objects
  copy_out n (i + 1) ret_objects objects1

-- The body of both enumerations: `ret_objects` is what the function's static array, of 100, holds
-- before, and `objects` the caller's array. The parameter `count` is not used.
unfoldable pub enumerate : List ℕ → List ℕ → List ℕ → Option ((List ℕ × List ℕ) × ℕ)
unfolding gather copy_out
enumerate ps ret_objects objects = do
  (ret_objects1, cnt) ← gather ps ret_objects 0
  objects1 ← copy_out cnt 0 ret_objects1 objects
  some ((ret_objects1, objects1), cnt)

unfoldable pub enumerate_objects_by_list_num :
    ListNum → List ℕ → List ℕ → Tables → Option ((List ℕ × List ℕ) × ℕ)
enumerate_objects_by_list_num list_num ret_objects objects t =
    enumerate (list_head list_num t) ret_objects objects

unfoldable pub enumerate_objects_by_hash_index :
    ℕ → List ℕ → List ℕ → Tables → Option ((List ℕ × List ℕ) × ℕ)
enumerate_objects_by_hash_index index ret_objects objects t =
    enumerate (t.hash_table index) ret_objects objects
