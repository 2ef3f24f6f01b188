-- ===== src/Lib.antt =====
-- The file system of Pintos (KAIST), as the kernel is configured with EFILESYS: a FAT on an IDE
-- disk, inodes, open files, directories and paths. With it come the kernel's lists, hash tables and
-- bitmap, the free map of the configuration without a FAT, the page allocator, the pages on the
-- swap disk, and the threads of the kernel with their semaphores, locks and conditions. Paths of the
-- source are below pintos-kaist/.
--
-- How the parts interact. filesys.c takes paths apart and calls directory.c, which reads and writes
-- its entries through inode.c; file.c does the same for the bytes of a file. inode.c finds sectors
-- by the chains of fat.c and extends files by fat_create_chain. fat.c keeps its table in memory and
-- writes it to the disk at the end. free-map.c keeps a bitmap in a file. synch.c blocks and wakes
-- threads through thread.c, whose lists and those of hash.c are the lists of list.c.
--
-- Which file models what.
--   Base               shared types: results of calls, Boolean tests, lists, 32-bit words
--   Disk               devices/disk.c: a disk as a function from sectors to bytes
--   Fat                filesys/fat.c: the table, find_free_cluster, fat_create_chain,
--                      fat_remove_chain, fat_allocate; its children prove what chains become
--   Fat.Store          fat_init, fat_open, fat_close, fat_create with the bytes on the disk
--   Inode              filesys/inode.c: byte_to_sector, inode_read_at, inode_write_at
--   Inode.Table        the list of open inodes and inode_create
--   File               filesys/file.c
--   Directory          filesys/directory.c, with the predicates on directories of inode.c
--   Filesys            filesys/filesys.c, create_root_dir_inode of inode.c and strtok_r of
--                      lib/string.c
--   Bitmap             lib/kernel/bitmap.c
--   FreeMap            filesys/free-map.c
--   LinkedList         lib/kernel/list.c
--   HashTable          lib/kernel/hash.c; Traverse has its iterators, Values the hash functions
--   Palloc             threads/palloc.c: the page allocator
--   Swap               vm/anon.c: the swap table and the pages on the swap disk
--   Threads            threads/thread.c: the ready list, scheduling, creation, priorities
--   Threads.Synch      threads/synch.c: semaphores, and locks with priority donation
--   Threads.Condition  threads/synch.c: condition variables
--   Threads.Steps      runs of the kernel as sequences of steps of interleaved threads
-- A definition has the name of the function that it models; the parts of a long function have names
-- of their own. A module Examples holds concrete inputs at which the theorems of its component apply.
--
-- State. The global objects are passed along: FatFs is fat_fs, Disk the file system's disk, System
-- both with the heap of struct inode, the list open_inodes and the next address of malloc. A pointer
-- to an inode is its address, so that inodes are shared; a null pointer is `none`. Kernel is the
-- state of the scheduler with all semaphores, locks and conditions, which are addresses like threads;
-- a lock has the address of its semaphore. A bucket of a hash table, the ready list and the waiters of
-- a semaphore are lists of addresses, to which LinkedList relates the memory of their elements;
-- list_sort is taken there as the stable sort that it is documented to be. LinkedList.Dropping has the
-- loop of remove_donation_for_lock on the links themselves.
--
-- Threads. One thread is current, and the calls of the kernel are what it does. A call that gives the
-- CPU away ends there, and a later step of the thread is what follows: the loop of sema_down again, or
-- a call of its own. The operations on semaphores and the scheduler run with interrupts off, and a
-- call of them is one step. lock_acquire, lock_try_acquire and lock_release run with interrupts on:
-- their definitions are calls that are not interrupted, and Threads.Steps has their parts as single
-- steps, with any steps of other threads in between. A round of the donations is one of these parts.
-- Interrupt handlers take part in the runs by making blocked threads ready and by taking the CPU away.
--
-- Outcomes. A call ends in `ok`, in `panic` for a failed ASSERT or a PANIC, in `fault` for an access
-- outside an object, or in `hang` for a loop that has used up its fuel. A theorem that a call
-- `Returns` a value with a property excludes the last three.
--
-- Fuel. The loops of fat.c run on as many rounds as the table has entries, and one more where the
-- end mark is read; a chain of distinct clusters is no longer, and a search sees each cluster once.
-- Reading and writing run on one round for each byte and one more, since a round moves at least a
-- byte; the loops over a directory run on one round for each entry and one more. The loops of list.c
-- take their fuel from the caller. The loop on the number of buckets of a hash table has as many rounds
-- as the number, each of which makes it less; hash_next has one for each bucket. The loop of
-- lock_acquire has a round for each lock in the chain, which the theorems ask to end within the fuel.
--
-- Numbers. Clusters and sectors are 32-bit and wrap around. Offsets and sizes of files are the
-- non-negative values of off_t, taken to be below 2^31 for the table of the FAT, and differences that the code tests against 0 stop at 0. A bitmap's
-- sums and the counters of a hash table wrap at 64 bits, a semaphore's value at 32. Priorities are
-- not negative.
--
-- Parameters. Where memory is allocated, `memory` says whether the allocations of the call succeed;
-- fat.c panics without memory, and the model grants it there; lock_acquire writes to
-- the null pointer. The address that malloc returns is the next unused one.
--
-- Not modelled: locks and interrupts in the file system, whose calls run alone here; the controller
-- protocol of devices/disk.c; output for debugging; the assembly of context switches, interrupt
-- levels and statistics of threads, the lock around thread identifiers, and the multi-level feedback
-- queue, which is off by default; the memory map that the page allocator starts from; user programs,
-- page tables and the rest of virtual memory, devices and the rest of the libraries.
pub mod Base
pub mod Bitmap
pub mod Directory
pub mod Disk
pub mod Fat
pub mod File
pub mod Filesys
pub mod FreeMap
pub mod HashTable
pub mod Inode
pub mod LinkedList
pub mod Palloc
pub mod Swap
pub mod Threads
