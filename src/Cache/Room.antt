-- ===== src/Cache/Room.antt =====
-- OS/hw3/buf.c, the start of a miss: afterwards the free list has a buffer.
use kw_home_work.Common.{
  ℕ, ◌<◌, ◌≤◌, ◌≡◌, refl, some, List, [], ◌∷◌, arith, inl, inr, leb, length, count, count-cons,
  count-nil, count-snoc, Bool-cases,
}
use kw_home_work.Disk.{Block}
use kw_home_work.Queue.{first, first_of_count}
use kw_home_work.Cache.{Cache, make_room, get_buf_count}
use kw_home_work.Cache.Valid.{IsValid, Holds}
use kw_home_work.Cache.View.{view}
use kw_home_work.Cache.Evict.{
  evicted, evicted-IsValid, view-evicted, Holds-evicted, process_lru_list_head-evicted,
}

-- Every block that could be read still reads the same.
abbrev pub Keeps : Cache → Cache → Type 0
Keeps c c' = (b : ℕ) (d : Block) → view b c ≡ some d → view b c' ≡ some d

pub record Room (c c' : Cache) : Type 0 where
  pub valid : IsValid c'
  pub keeps : Keeps c c'
  pub held : (b q : ℕ) → Holds c' b q → Holds c b q
  pub spare : ℕ
  pub at_head : first c'.free_list ≡ some spare
  pub free : 0 < count spare c'.free_list

spare_of_evicted : (c : Cache) (p : ℕ) → 0 < count p (evicted p c).free_list
unfolding evicted
spare_of_evicted c p = ground (arith, count-snoc p p c.free_list)

empty_of_length : (xs : List ℕ) (p : ℕ) → length xs ≤ 0 → count p xs ≡ 0
empty_of_length [] p h = count-nil p
empty_of_length (x ∷ xs) p h = absurd (omega arith)

some_of_length : (xs : List ℕ) → 0 < length xs → (p : ℕ) × (first xs ≡ some p) × (0 < count p xs)
unfolding first
some_of_length [] h = absurd (omega arith)
some_of_length (x ∷ xs) h = (x, refl, ground (arith, count-cons x x xs))

-- Room can always be made in a well-formed cache: afterwards it is well formed, its free list has a
-- buffer, every readable block reads as before, and no buffer has come to hold a block.
pub make_room-Room : {c : Cache} → IsValid c → (c' : Cache) × (make_room c ≡ some c') × Room c c'
unfolding make_room get_buf_count
make_room-Room {c} v = elim (Bool-cases (leb (length c.free_list) 0)) [
  | inl full ↦
      let in_use : 0 < count 0 c.lru_list =
        ground (arith, v.pool 0, empty_of_length c.free_list 0) in
      let (p, e, used) = first_of_count 0 c.lru_list in_use in
      let (s, at, free) = first_of_count p (evicted p c).free_list (spare_of_evicted c p) in
      (
        evicted p c,
        rw full (process_lru_list_head-evicted v p e used),
        record {
          valid = evicted-IsValid v p used;
          keeps = view-evicted v p used;
          held = Holds-evicted v p used;
          spare = s;
          at_head = at;
          free = free;
        },
      )
  | inr room ↦
      let (p, at, free) = some_of_length c.free_list (ground arith) in
      (
        c,
        rw room,
        record {
          valid = v;
          keeps = λ b d h. h;
          held = λ b q k. k;
          spare = p;
          at_head = at;
          free = free;
        },
      )
]
