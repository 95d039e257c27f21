-- ===== src/Cache.antt =====
-- OS/hw3/buf.h and OS/hw3/buf.c: the buffer cache. A `Buf` lives at an address; the queues hold
-- addresses, and each `Buf` is on several of them at once.
pub mod Valid
pub mod View
pub mod Evict
pub mod Place
pub mod Hit
pub mod Room
pub mod Miss
pub mod Ops
pub mod Sync
pub mod Init
pub mod Run
use kw_home_work.Common.{
  ℕ, zero, suc, ◌+◌, ◌%◌, Bool, true, false, Option, none, some, List, [], ◌∷◌, ◌==◌, leb,
  if◌then◌else◌, length, ◌>>=◌, update,
}
use kw_home_work.Disk.{Block, Disk, dev_read_block, dev_write_block}
use kw_home_work.Queue.{first, insert_head, insert_tail, remove, find_by}

abbrev pub max_buflist_num : ℕ
max_buflist_num = 4

abbrev pub max_buf_num : ℕ
max_buf_num = 16

pub data BufState : Type 0 where
  clean dirty : BufState

abbrev pub is_clean : BufState → Bool
is_clean BufState.clean = true
is_clean BufState.dirty = false

pub record Buf : Type 0 where
  pub blkno : ℕ
  pub state : BufState
  pub mem : Block

-- `bufList`, the two lists of `stateList`, `freeListHead`, `lruListHead`, and the disk below.
pub record Cache : Type 0 where
  pub disk : Disk
  pub bufs : ℕ → Buf
  pub buf_list : ℕ → List ℕ
  pub clean_list : List ℕ
  pub dirty_list : List ℕ
  pub free_list : List ℕ
  pub lru_list : List ℕ

abbrev pub set_buf : ℕ → Buf → Cache → Cache
set_buf p b c = record c { bufs = update c.bufs p b }

-- The walks over a queue that compare block numbers.
unfoldable pub find_blkno : (ℕ → Buf) → ℕ → List ℕ → Option ℕ
unfolding find_by
find_blkno bufs b ps = find_by (λ p. (bufs p).blkno) b ps

abbrev pub is_some : {A : Type 0} → Option A → Bool
is_some none = false
is_some (some a) = true

unfoldable pub buf_find : ℕ → Cache → Option ℕ
buf_find blkno c = find_blkno c.bufs blkno (c.buf_list (blkno % max_buflist_num))

unfoldable pub find_buf_in_lru_list : ℕ → Cache → Option ℕ
find_buf_in_lru_list blkno c = find_blkno c.bufs blkno c.lru_list

abbrev pub state_list : BufState → Cache → List ℕ
state_list BufState.clean c = c.clean_list
state_list BufState.dirty c = c.dirty_list

unfoldable pub find_buf_in_state_list : BufState → ℕ → Cache → Bool
find_buf_in_state_list listnum buf c =
    is_some (find_blkno c.bufs (c.bufs buf).blkno (state_list listnum c))

-- `InsertToTail` on a list of `stateList`.
abbrev pub add_to_state_list : BufState → ℕ → Cache → Cache
add_to_state_list BufState.clean p c = record c { clean_list = insert_tail p c.clean_list }
add_to_state_list BufState.dirty p c = record c { dirty_list = insert_tail p c.dirty_list }

unfoldable pub buf_insert_to_head : ℕ → ℕ → BufState → Cache → Cache
buf_insert_to_head p blkno listnum c =
    let c1 = set_buf p (record (c.bufs p) { blkno = blkno }) c in
    let idx = blkno % max_buflist_num in
    let c2 = record c1 { buf_list = update c.buf_list idx (insert_head p (c.buf_list idx)) } in
    add_to_state_list listnum p c2

unfoldable pub buf_get_new_buffer : Cache → Option (ℕ × Cache)
buf_get_new_buffer c = do
  p ← first c.free_list
  free ← remove p c.free_list
  some (p, record c { free_list = free })

-- The first buffer with the block number of `p` on its hash chain goes to the free list.
unfoldable pub buf_delete : ℕ → Cache → Option (Bool × Cache)
buf_delete p c =
    let idx = (c.bufs p).blkno % max_buflist_num in
    elim (find_blkno c.bufs (c.bufs p).blkno (c.buf_list idx)) [
      | none ↦ some (false, c)
      | some iter ↦ do
        chain ← remove iter (c.buf_list idx)
        some (
          true,
          record c {
            buf_list = update c.buf_list idx chain;
            free_list = insert_tail iter c.free_list;
          },
        )
    ]

unfoldable pub get_buf_count : Cache → ℕ
get_buf_count c = length c.free_list

-- The `if` at the end of `processLruListHead`.
unfoldable pub drop_state : ℕ → BufState → Cache → Option Cache
drop_state p BufState.clean c = do l ← remove p c.clean_list; some (record c { clean_list = l })
drop_state p BufState.dirty c = do
  l ← remove p c.dirty_list
  some (record c { dirty_list = l; disk = dev_write_block (c.bufs p).blkno (c.bufs p).mem c.disk })

unfoldable pub process_lru_list_head : Cache → Option Cache
process_lru_list_head c = do
  iter ← first c.lru_list
  lru ← remove iter c.lru_list
  (_, c2) ← buf_delete iter (record c { lru_list = lru })
  drop_state iter (c2.bufs iter).state c2

-- Both operations make room before they take a buffer from the free list.
unfoldable pub make_room : Cache → Option Cache
make_room c = if leb (get_buf_count c) 0 then process_lru_list_head c else some c

-- The end of both operations: `buf` moves to the tail of the LRU list.
unfoldable pub touch : ℕ → ℕ → Cache → Option Cache
touch blkno buf c = do
  lru ← elim (find_buf_in_lru_list blkno c) [
    | none ↦ some c.lru_list
    | some _ ↦ remove buf c.lru_list
  ]
  some (record c { lru_list = insert_tail buf lru })

-- A miss of `BufRead`: `junk` is what `malloc` left in `pMem`.
unfoldable pub load : ℕ → Block → Cache → Option (ℕ × Cache)
load blkno junk c = do
  c1 ← make_room c
  (p, c2) ← buf_get_new_buffer c1
  let (mem, disk) = dev_read_block blkno junk c2.disk
  let c3 =
      set_buf p (record { blkno = blkno; state = BufState.clean; mem = mem })
        (record c2 { disk = disk })
  some (p, buf_insert_to_head p blkno BufState.clean c3)

unfoldable pub buf_read : ℕ → Block → Cache → Option (Block × Cache)
buf_read blkno junk c = elim (buf_find blkno c) [
  | some buf ↦ do c1 ← touch blkno buf c; some ((c.bufs buf).mem, c1)
  | none ↦ do (buf, c1) ← load blkno junk c; c2 ← touch blkno buf c1; some ((c1.bufs buf).mem, c2)
]

-- A hit of `BufWrite`.
unfoldable pub overwrite : ℕ → Block → Cache → Option Cache
overwrite p block c =
    let moved = do
      l ← remove p c.clean_list
      some (
          set_buf p (record (c.bufs p) { mem = block; state = BufState.dirty })
            (record c { clean_list = l; dirty_list = insert_tail p c.dirty_list }))
    in if find_buf_in_state_list BufState.clean p c
      then moved
      else if find_buf_in_state_list BufState.dirty p c
      then some (set_buf p (record (c.bufs p) { mem = block }) c)
      else some c

-- A miss of `BufWrite`.
unfoldable pub store : ℕ → Block → Cache → Option (ℕ × Cache)
store blkno block c = do
  c1 ← make_room c
  (p, c2) ← buf_get_new_buffer c1
  let c3 = set_buf p (record { blkno = blkno; state = BufState.dirty; mem = block }) c2
  some (p, buf_insert_to_head p blkno BufState.dirty c3)

unfoldable pub buf_write : ℕ → Block → Cache → Option Cache
buf_write blkno block c = elim (buf_find blkno c) [
  | some buf ↦ do c1 ← overwrite buf block c; touch blkno buf c1
  | none ↦ do (buf, c1) ← store blkno block c; touch blkno buf c1
]

-- One dirty buffer written back, in the loop of `BufSync` and in `BufSyncBlock`.
unfoldable pub sync_one : ℕ → Cache → Option Cache
sync_one p c = do
  l ← remove p c.dirty_list
  some (
      set_buf p (record (c.bufs p) { state = BufState.clean })
        (record c {
          disk = dev_write_block (c.bufs p).blkno (c.bufs p).mem c.disk;
          dirty_list = l;
          clean_list = insert_tail p c.clean_list;
        }))

unfoldable pub sync_loop : List ℕ → Cache → Option Cache
sync_loop [] c = some c
sync_loop (p ∷ ps) c = do c1 ← sync_one p c; sync_loop ps c1

-- Each round takes the next buffer before it moves the current one, so the walk is over the dirty
-- list as it stands at the start.
unfoldable pub buf_sync : Cache → Option Cache
buf_sync c = sync_loop c.dirty_list c

-- `none` where the code would read through the null pointer of a block that is not cached.
unfoldable pub buf_sync_block : ℕ → Cache → Option Cache
buf_sync_block blkno c = do
  p ← buf_find blkno c
  if is_clean (c.bufs p).state then some c else sync_one p c

-- `GetBufInfoInStateList`, `GetBufInfoInLruList`, `GetBufInfoInBufferList`: the walk fills
-- `retBufs[numBuf]` and returns its count; a longer list writes past the end of that array.
unfoldable pub get_buf_info : List ℕ → ℕ → Option (List ℕ × ℕ)
get_buf_info ps num_buf = if leb (length ps) num_buf then some (ps, length ps) else none

unfoldable pub get_buf_info_in_state_list : BufState → ℕ → Cache → Option (List ℕ × ℕ)
get_buf_info_in_state_list listnum num_buf c = get_buf_info (state_list listnum c) num_buf

unfoldable pub get_buf_info_in_lru_list : ℕ → Cache → Option (List ℕ × ℕ)
get_buf_info_in_lru_list num_buf c = get_buf_info c.lru_list num_buf

unfoldable pub get_buf_info_in_buffer_list : ℕ → ℕ → Cache → Option (List ℕ × ℕ)
get_buf_info_in_buffer_list index num_buf c = get_buf_info (c.buf_list index) num_buf

-- `BufInit`: all queues empty, and `MAX_BUF_NUM` new buffers on the free list, at the addresses 0 to 15.
-- Their state and memory are what `malloc` left.
unfoldable pub init_loop : (n i : ℕ) → Cache → Cache
init_loop zero i c = c
init_loop (suc n) i c = init_loop n (i + 1) (
    set_buf i (record (c.bufs i) { blkno = i })
      (record c { free_list = insert_tail i c.free_list }))

unfoldable pub buf_init : Cache → Cache
unfolding init_loop
buf_init c = init_loop max_buf_num 0 (record c {
  buf_list = λ _. [];
  clean_list = [];
  dirty_list = [];
  free_list = [];
  lru_list = [];
})
