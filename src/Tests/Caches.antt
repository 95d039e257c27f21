-- ===== src/Tests/Caches.antt =====
-- The buffer cache of OS/hw3/buf.c on a small disk, and the theorems about it there.
use kw_home_work.Common.{ℕ, ◌≡◌, ◌<◌, count, refl, Option, none, some, List, [], ◌∷◌, arith}
use kw_home_work.Disk.{Block, Disk, content, dev_read_block, dev_write_block}
use kw_home_work.Queue.{first, remove, find_by}
use kw_home_work.Cache.{
  BufState, Cache, find_blkno, buf_find, find_buf_in_lru_list, find_buf_in_state_list,
  buf_insert_to_head, buf_get_new_buffer, buf_delete, get_buf_count, drop_state,
  process_lru_list_head, make_room, touch, load, overwrite, store, sync_one, sync_loop, buf_read,
  buf_write, buf_sync, buf_sync_block, buf_init,
}
use kw_home_work.Cache.Valid.{IsValid, Holds, buf_find_of_Holds}
use kw_home_work.Cache.Place.{placed, placed-IsValid, placed-Holds}
use kw_home_work.Cache.Miss.{filled}
use kw_home_work.Cache.View.{view}
use kw_home_work.Cache.Init.{buf_init-IsValid}
use kw_home_work.Cache.Room.{Keeps, Room, make_room-Room}
use kw_home_work.Cache.Ops.{Wrote, buf_read-view, buf_write-Wrote}
use kw_home_work.Cache.Sync.{Synced, buf_sync-Synced, buf_sync_block-content}
use kw_home_work.Cache.Run.{Call, run, run_flat, Agrees, run-run_flat}

program : Unit {0}
unfolding first remove find_by content dev_read_block dev_write_block find_blkno buf_find
    find_buf_in_lru_list find_buf_in_state_list buf_insert_to_head buf_get_new_buffer buf_delete
    get_buf_count drop_state process_lru_list_head make_room touch load overwrite store sync_one
    sync_loop buf_init buf_read buf_write buf_sync run run_flat view
program = tt

-- A disk of eight short blocks.
abbrev disk : Disk
disk = record { size = 8; blocks = λ b. b ∷ []; disk_read_count = 0; disk_write_count = 0 }

abbrev raw : Cache
raw = record {
  disk = disk;
  bufs = λ _. record { blkno = 0; state = BufState.clean; mem = [] };
  buf_list = λ _. [];
  clean_list = [];
  dirty_list = [];
  free_list = [];
  lru_list = [];
}

-- After `BufInit`.
abbrev start : Cache
start = buf_init raw

buf_init-IsValid_example : IsValid start × ((b : ℕ) → view b start ≡ content disk b)
buf_init-IsValid_example = buf_init-IsValid raw

start-IsValid : IsValid start
start-IsValid = (buf_init-IsValid raw).0

view_three : view 3 start ≡ some (3 ∷ [])
unfolding program
view_three = refl

-- Block 5 is written and read back, block 3 comes from the disk.
abbrev calls : List Call
calls = Call.write 5 (55 ∷ []) ∷ Call.read 5 [] ∷ Call.sync ∷ Call.read 5 [] ∷ []

no_blocks : ℕ → Option Block
no_blocks b = none

run_flat_calls :
    (t : ℕ → Option Block) × (run_flat calls no_blocks ≡ some ((55 ∷ []) ∷ (55 ∷ []) ∷ [], t))
unfolding program
run_flat_calls = (_, refl)

run-run_flat_example :
    (c : Cache) × (run calls start ≡ some ((55 ∷ []) ∷ (55 ∷ []) ∷ [], c))
    × IsValid c
    × Agrees run_flat_calls.0 c
unfolding no_blocks
run-run_flat_example = run-run_flat calls start-IsValid (λ b d h. ground arith) run_flat_calls.1

buf_read-view_example :
    (c : Cache) × (buf_read 3 [] start ≡ some (3 ∷ [], c)) × IsValid c × Keeps start c
buf_read-view_example = buf_read-view 3 [] (3 ∷ []) start-IsValid view_three

buf_write-Wrote_example :
    (c : Cache) × (buf_write 20 (7 ∷ []) start ≡ some c) × Wrote 20 (7 ∷ []) start c
buf_write-Wrote_example = buf_write-Wrote 20 (7 ∷ []) start-IsValid

-- With one dirty block.
written_twenty : (c : Cache) × (buf_write 20 (7 ∷ []) start ≡ some c) × Wrote 20 (7 ∷ []) start c
written_twenty = buf_write-Wrote 20 (7 ∷ []) start-IsValid

abbrev dirty : Cache
dirty = written_twenty.0

buf_sync-Synced_example :
    (c : Cache) × (buf_sync dirty ≡ some c)
    × Synced dirty c
    × ((b : ℕ) (d : Block) → view b dirty ≡ some d → content c.disk b ≡ some d)
buf_sync-Synced_example = buf_sync-Synced written_twenty.2.valid

make_room-Room_example : (c : Cache) × (make_room dirty ≡ some c) × Room dirty c
make_room-Room_example = make_room-Room written_twenty.2.valid

-- Block 20 in buffer 0, dirty.
abbrev one : Cache
one = placed 0 (filled 20 BufState.dirty (7 ∷ [])) start

spare : 0 < count 0 start.free_list
unfolding program count
spare = omega arith

unheld : (q : ℕ) → Holds start 20 q → ⊥
unfolding program count
unheld q k = omega (arith, k.used)

one-IsValid : IsValid one
one-IsValid =
    placed-IsValid start-IsValid 0 (filled 20 BufState.dirty (7 ∷ [])) spare unheld
      (λ h. ground arith)

find_one : buf_find 20 one ≡ some 0
find_one = buf_find_of_Holds one-IsValid 20 0 (
    placed-Holds start-IsValid 0 (filled 20 BufState.dirty (7 ∷ [])) spare unheld
      (λ h. ground arith))

buf_sync_block-content_example :
    (c : Cache) × (buf_sync_block 20 one ≡ some c)
    × IsValid c
    × Keeps one c
    × (content c.disk 20 ≡ some (one.bufs 0).mem)
buf_sync_block-content_example = buf_sync_block-content 20 0 one-IsValid find_one
