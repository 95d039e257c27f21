-- ===== src/Lib.antt =====
-- Verification of the systems homework of this repository: the buffer cache and the file system of
-- OS/hw3, the object tables of OS/hw1, and the threads of SystemSoftware/Thread-scheduler.
--
-- Parts. OS/hw3/disk.c reads and writes blocks of a file. OS/hw3/buf.c keeps sixteen of them in
-- buffers that stand on several circular queues (OS/hw3/queue.h) at once: a hash chain, the list of
-- their state, the LRU list or the free list. OS/hw3/fs_internal.c keeps the two bitmaps and the
-- inode list in blocks that it reads and writes through the cache. OS/hw3/fs.c has files and
-- directories over these: a directory's blocks hold entries, and a path is walked from inode 0.
-- OS/hw1/hw1.c keeps objects on three queues and a hash table. Thread-scheduler/thread.c keeps threads
-- in a table and on two linked queues, from which the timer's handler of scheduler.c takes the next one
-- to run; semaphore.c has queues of its own for the threads that wait.
--
--   Common      shared names, Boolean tests, lists, and the count of an address on a queue
--   Queue       CIRCLEQ_FIRST, _INSERT_HEAD, _INSERT_TAIL, _REMOVE on the lists of addresses that a
--               walk over the links yields; removing an element that is not there is a fault.
--               Links has the macros on the links, and Links.Refinement that they do this to the list
--   Disk        disk.c: the file as a length and contents in blocks, and the access counters
--   Cache       buf.c: Buf, Cache, and a function for each operation, under the code's name
--               (BufRead is buf_read); Valid has the invariant, View what a client sees, Evict,
--               Room, Place and Miss the path of a miss, Hit that of a hit, Ops and Sync the
--               operations, Init the start, Run whole runs against an array of blocks
--   Store       the interface that the file system uses of the cache; Cached fills it
--   Bytes       parts of a block, and integers as bytes
--   Bitmap      the bitmap functions of fs_internal.c, on bytes (Bits), bitmaps (Search) and the
--               stored blocks (Stored)
--   Inode       PutInode and GetInode, on a block (Layout) and the stored list (Stored)
--   Fs          fs.c: what it keeps in memory; Entry has directory entries, Walk paths and the
--               search of directories, Files CreateFile, OpenFile, CloseFile and RemoveFile, Transfer
--               WriteFile and ReadFile, Folders MakeDir, RemoveDir, EnumerateDirStatus and
--               GetFileStatus, Format CreateFileSystem and OpenFileSystem; their children have the
--               theorems
--   Objects     hw1.c; Valid, Insert, Delete and Enumerate have its theorems
--   Threads     thread.h and what thread.c does to a queue; Calls and Join have the calls of thread.c,
--               Scheduler scheduler.c. Lists, Cut, Append and Removal say what that does to linked
--               lists; Population and Valid when a state shows a schedule, that is who runs and who is
--               ready or waits; Create, Suspend, Resume, Cancel and Timer (with Places, Tables, Ends,
--               Cancelled, Moves, Ticks, Switches and Turns) have the operations on valid states, Runs
--               the states that they reach
--   Semaphores  semaphore.c; Posting has thread_sem_post, Blocking the wait of thread_sem_wait
--   Tests       concrete runs, and the theorems at concrete inputs
--
-- Conventions. An address is a number. A fault of the C code, such as a removal from a queue that
-- the element is not on or a read through a null pointer, is `none`; the theorems that a result is
-- `some` show that none occurs. Loops over a queue recur on its list; counted loops recur on the
-- rounds left, so there is no fuel. An uninitialised buffer, and a caller's array, is an argument of the model. The
-- operations of fs.c are steps of a state monad over the memory and the store; a result -1 is `none`
-- or `false`, and a -1 that the code goes on to index with is a fault. The calls of thread.c map a state
-- to a result and a state; signals are a list, and what happens while a thread is stopped or pauses is an
-- argument, a function for each time.
--
-- Bounds. Block, inode and object numbers are at least 0; a field of an inode is the bit pattern of
-- its int, below 2 ^ 32, stored lowest byte first. A block or inode number read from a block that is
-- negative as an int is a fault. Allocations that are too small for what is written to them are taken
-- to be large enough, and the string of a name to end within its block. The system calls on the disk
-- file are taken to succeed; a read past the end of the file leaves the buffer as it was.
--
-- A loop over the table of 64 threads or 100 semaphores that finds nothing is a fault, since the code reads
-- on behind the table. The counts of the queues and semaphores are integers without a bound: the memory
-- for the elements ends first.
--
-- Not modelled: RunScheduler, which only makes system calls, the test programs, and the C++ exercises,
-- which are separate programs.
pub mod Common
pub mod Queue
pub mod Disk
pub mod Cache
pub mod Objects
pub mod Bytes
pub mod Store
pub mod Bitmap
pub mod Inode
pub mod Fs
pub mod Threads
pub mod Semaphores
mod Tests
