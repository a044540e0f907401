-- ===== src/Lib.antt =====
-- A verification library for zrhos, a small operating system for RISC-V (README.md): a kernel in C
-- with tasks, locks, a file system on a virtio disk, a console, a keyboard and system calls.
--
-- The parts that are modelled, and where:
--
-- Base holds what the models share: tests, lists and words over the native numbers, signed
-- counters, and the bits of a byte. A 32-bit counter of the source is a number below 2 ^ 32 with
-- its wrap-around written out (u32, sub32); an `int` that can be negative is `ℤ` of Base/Int.
--
-- Console models kernel/console.c. The handler `console_intr` edits a line in a ring of 128 bytes
-- that `console_read` takes finished lines from. Console/Defs has the ring and both functions,
-- Console/Line an editor and a reader without indices, and Console/Window how the ring holds their
-- lists. The loop that rubs out a line takes e - w rounds, and the loop of the reader one round for
-- each byte that is asked.
--
-- Keyboard models kernel/keyboard.c: the interrupt and the reader of the ring of 128 events.
--
-- Lock models kernel/lock.c. Lock/Semaphore has the semaphores with their queue of tasks,
-- Lock/Nesting `push_off` and `pop_off`, and Lock/Spin the spin lock as atomic steps of any number
-- of CPUs in any order. The interrupt enable bit is on the machine's side of `push_off` and
-- `pop_off`.
--
-- Bio models kernel/bio.c, the cache of disk blocks, over the list of buffers from the one released
-- last to the one released first. A buffer is locked by a semaphore of Lock. The disk is an
-- interface (`Disk` in Bio/Defs) that reads and writes whole blocks.
--
-- Disk models the other side of that interface, kernel/virtio_disk.c: the 64 descriptors, the chain
-- of a request, and the interrupt. A call that sleeps is cut into the step before the sleep
-- (`submit`) and the step after it (`finish`). Disk/Requests puts the steps of all requests and the
-- interrupt together in any order. `free_chain` may take 64 rounds,
-- since a descriptor is freed once.
--
-- File models kernel/file.c with the loops over descriptors in kernel/sysfile.c and kernel/proc.c:
-- the reference counts of open files against the descriptors of a task.
--
-- Fs models kernel/fs.c over the blocks as the cache gives them byte by byte. Fs/Bitmap has the free
-- map of blocks, where `balloc` takes one round for each block from the start of the data on,
-- Fs/Itable the table of 100 inodes in memory with `iget` and `idup`, Fs/Bytes the fields of the
-- structures on the disk, and Fs/Inode `ialloc`, `iupdate`, `ilock`, `itrunc` and `iput`; a call
-- that waits for a semaphore that its own thread holds ends as `waits`, and as a panic of `sched` with
-- a spin lock held. Fs/Content has `bmap`,
-- `readi` and `writei`: the memory that they copy to and from is a parameter, an operation that
-- copies bytes and answers whether it could, which is `either_copyout` and `either_copyin` of
-- kernel/proc.c, and each gets a round for every byte. Fs/Path has `skipelem`, and Fs/Directory
-- `dirlookup`, which gets a round for every byte of the directory, `namex`, which gets one for every
-- byte of the path, and `dirlink`. Fs/Create has `create` of kernel/sysfile.c, which puts them
-- together. `writei` does not call `bwrite`: it has a parameter that says of which blocks the cache
-- keeps the buffer, and the blocks as they are on the disk, which is what `bread` gives of the others.
-- The entry that `dirlink` writes without `bwrite`, and the map and indirect blocks that `balloc` and
-- `bmap` change, count as changed.
--
-- Klib models kernel/klib.c: strings (Klib/Strings, Klib/Compare), `itoa` and `atoi`
-- (Klib/Numbers, and Klib/Numerals for what digits stand for), the memory functions (Klib/Memory), and `vsprintf` (Klib/Format). A pointer to a
-- string is the list of the bytes from it to the end of its object, and an access behind the object
-- is `none`. The digit loop gets as many rounds as the number, and `memmove` as many as there are
-- bytes.
--
-- Proc models kernel/proc.c: the task table of 1010 slots with parents, exit statuses and the units
-- of the semaphore that a parent waits on. There each operation is one step, since the source holds
-- the locks of the tasks over its parts. Proc/Schedule has the scheduler on any number of CPUs, with
-- `sched`, `yield`, `sleep` and `wakeup` as steps of a CPU, one for each access to a task or to its
-- lock, and Proc/Sleep the protocol of `sleep` and `wakeup` around a condition, as the sleep lock of
-- kernel/lock.c uses it. What a task does next is a choice of the schedule; in Proc/Schedule it is to
-- compute, to yield, to sleep, to wake a channel, or to exit without parent and children.
--
-- Vm models kernel/vm.c, the Sv39 page tables of three levels, as a store of tables by the address
-- of their page, apart from the data pages; the pages that `mem_malloc` will give are a list, and where
-- it is empty `mem_sbrk` panics.
-- `walk` goes down two levels, `vm_map` gets a round for each page of its size, which is enough for
-- an aligned range, `vm_unmap` one for each page, and `copyin` and `copyinstr` (Vm/Copy) one for
-- each byte, which is more than they take. The flags that `vm_map` is given are of 10 bits.
-- Vm/Pages says what an address space is, and Vm/User puts `uvm_map` and `walkaddr` together.
--
-- Heap models kernel/mem.c: the lists of free blocks of 2 ^ 3 to 2 ^ 11 bytes behind their heads,
-- the list of free pages, and the word that is kept of each page. A list that the source links
-- through the free blocks is the list of their addresses. Heap/Big has `bigfind` and `mm_malloc`,
-- Heap/Release `mm_free`, and Heap/Arena the blocks in use, with their places on the pages. `_log2`
-- gets 32 rounds, for sizes to 2 ^ 32.
--
-- Sh models the parser of user/sh.c: Sh/Lexer has `gettoken` and `peek`, Sh/Parser the recursive
-- descent, and Sh/Syntax the grammar, the text of a line and its command. A call of a parsing
-- function costs a unit of fuel, and `parsecmd` gives four for each byte and five more. `strchr` is
-- that of user/ulib.c.
--
-- Not modelled: `vsnprintf` and `rand` of kernel/klib.c; `kvm_init`, `free_pagetable`,
-- `copy_pagetable`, `copyout` and `fetchaddr` of kernel/vm.c; memory mappings (kernel/mmap.c),
-- the arguments of the calls of kernel/sysfile.c, `fs_init` and `readsb` of kernel/fs.c, the loader
-- (kernel/exec.c), traps and the dispatch of calls, the other device drivers, and the rest of
-- user/; `runcmd` of user/sh.c, which only makes system calls; kernel/rbtree.c,
-- which is another project's; mkfs/mkfs.cpp, which is not part of the kernel; and start-up code and
-- assembly.
pub mod Base
pub mod Bio
pub mod Console
pub mod Disk
pub mod File
pub mod Fs
pub mod Heap
pub mod Keyboard
pub mod Klib
pub mod Lock
pub mod Proc
pub mod Sh
pub mod Vm
