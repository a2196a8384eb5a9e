-- ===== src/Lib.antt =====
-- Verification of HAL9000, an x86-64 teaching operating system written in C.
--
-- Parts of the program that are modelled, and how they interact:
-- Bitmap (CommonLib/src/bitmap.c): bits over a buffer of bytes, with searches for runs of equal
--   bits. `Bitmap.preinit` is BitmapPreinit, `Bitmap.scan_from_to` is BitmapScanFromTo, and so on.
--   `Byte`, `Bits`, `Range`, `Init`, `Scan` and `Flip` prove what each family of functions does to
--   the sequence of bits.
-- Pmm (HAL9000/src/pmm.c): the physical memory manager, which keeps one bit of a bitmap for each
--   frame. `Pmm.reserve_memory_ex` is PmmReserveMemoryEx, `Pmm.release_memory` PmmReleaseMemory, and
--   the rest sets the bitmap up from the firmware's memory map. `Reserve`, `Release`, `Limits` and
--   `Boot` are about single calls, `Trace` about sequences of calls, `Outside` about memory maps
--   that the code mishandles.
-- RwSpinlock (CommonLib/src/rw_spinlock.c): the reader-writer spinlock, as the steps of processors
--   that interleave at each access to the lock's words.
-- Vm (HAL9000/src/vm_reservation_space.c): the reservations of virtual addresses, with a commit bitmap
--   (Bitmap) each. `Region` has the operations on a whole space (`Region.alloc_region` is
--   VmReservationSpaceAllocRegion), `Access` the checks of an access, `Setup` the initialisation.
--   `Live` and `Find` are about the search for a reservation, `Slot` and `Fill` about new ones,
--   `Commit`, `Release` and `Fault` about what commits, releases and the checks do, `Invariant`,
--   `Steps` and `Preserve` about what every operation keeps, and `Reserve` about refusals.
-- StrUtils (CommonLib/src/strutils.c): itoa and atoi over lists of bytes. `Swap` and `Reverse` are
--   about the reversal in place, `Digits` about the digit loop, `RoundTrip` and `Refusal` about whole
--   conversions.
-- IntUtils (CommonLib/src/intutils.c): CalculatePercentage, by which Vm divides its metadata.
-- Memory (CommonLib/src/cl_memory.c): the byte loops that the other parts call; `Compare` has
--   cl_rmemcmp, `Copy` cl_memmove, cl_memcmp and cl_memscan.
-- LinkedList (CommonLib/src/list.c): doubly linked lists, on a map from addresses to links.
--   `LinkedList.insert_tail_list` is InsertTailList, and so on; `Walks` has the functions that walk a
--   list. `Chains` and `Ring` say which sequence of entries the links stand for, `Insert` and
--   `Remove` what single calls do to it, `Refine` what sequences of calls do, and `Count`, `Search`,
--   `Ordered` and `Each` are about the walks.
-- Mutex (HAL9000/src/mutex.c, with ThreadBlock and ThreadUnblock of HAL9000/src/thread.c): the mutex,
--   as the turns of threads that interleave at its spinlock; its waiting list is a sequence, as
--   LinkedList allows. `Mutex.acquire_begin`, `acquire_locked`, `acquire_round` and `acquire_again` are
--   the parts of MutexAcquire, `release_begin` and `release_locked` those of MutexRelease.
--   `Invariant`, `Frames`, `Moves`, `Turns` and `Handover` prove what every turn keeps, `Safety`,
--   `Asserts` and `Progress` what follows from it, and `Termination` is about threads that are
--   terminated by force.
-- ExEvent (HAL9000/src/ex_event.c): executive events, in the manner of Mutex. `ExEvent.test_signal`,
--   `queue_up` and `wake_up` are the parts of ExEventWaitForSignal, `signal_locked` and `signal_round`
--   those of ExEventSignal. `Signals` counts signals and returns, `Lost` is about a signal that comes
--   at the wrong time.
-- HashTable (CommonLib/src/hash_table.c): chained hash tables, with buckets as sequences of entries.
--   `HashTable.hash_table_insert` is HashTableInsert, and so on. `Buckets` and `Keys` are about one
--   bucket, `Lookup`, `Tables` and `Removal` about whole tables, `Iterator` about the iterator and the
--   hash functions. `Memory.Compare` proves that cl_rmemcmp compares keys as numbers.
-- RefCount (CommonLib/src/ref_cnt.c): reference counts, over sequences of calls.
-- Prelude: shared types and lemmas; `Prelude.Outcome` says what a failed ASSERT is,
--   `Prelude.Words` has the machine words and the alignment macros (CommonLib/inc/base.h).
--
-- Conventions. A number of the C code is a natural number below 2 ^ 32 (DWORD) or 2 ^ 64 (QWORD), and
-- sums and differences that may wrap are written with `%`. An operation returns `none` when the C call
-- does not return, because an ASSERT fails, which halts the machine, when it accesses memory outside of
-- a buffer, and when it breaks the links of a list that is modelled as a sequence. Pointers to objects
-- are values that are not NULL. Loops recur on the number of rounds left or on a list, so that no fuel
-- is needed, but for the digit loop of itoa, whose 65 rounds are enough for 64 bits in any base from 2
-- on, and the walks of a list, for which a round for each entry and one more are enough.
--
-- Not modelled: logging, device registers, machine code, the interrupt flag, and the drivers; threads
-- that are terminated by force are modelled for the mutex, and not for executive events. A
-- function that holds a lock over its whole effect is one step on the state.
pub mod Prelude
pub mod Memory
pub mod Bitmap
pub mod Pmm
pub mod RefCount
pub mod RwSpinlock
pub mod StrUtils
pub mod Vm
pub mod ExEvent
pub mod HashTable
pub mod IntUtils
pub mod LinkedList
pub mod Mutex
