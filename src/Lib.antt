-- ===== src/Lib.antt =====
-- Models and proofs for the projects of an operating systems course: parts of the xv6 kernels of
-- P4_XV6_Stride_Scheduling and P5_XV6_CoW_Fork, and the programs of the other projects: the fortune teller,
-- the shell, the parallel sort, the recovery of files and the request server with its client.
--
-- Common has what the parts share: Boolean tests and lists on the native numbers, `rank` (the order of
-- the signed numbers on 32-bit patterns), the outcome of code that may panic, and memory as a function
-- from addresses. A `uint` or `int` is its pattern below 2 ^ 32 with the wrap-around written out.
--
-- Kmem, P5_XV6_CoW_Fork/kernel/kalloc.c: `Kmem` is the struct `kmem` with the `next` pointers of the
--   pages; kfree_init, kinit, kfree, kalloc and the routines on reference counts are functions of the same
--   names, getFreePagesCount is `get_free_pages_count`. The end of the kernel is a parameter. The loop
--   of kinit has fuel for 4097 pages, one more than PHYSTOP / PGSIZE. Kmem/Inv has the invariant,
--   Kmem/Init the boot, Kmem/Sharing pages with several owners.
-- Strings, P5_XV6_CoW_Fork/kernel/string.c: the routines of the same names over `Memory`. Fuel of
--   `strlen` is a parameter. Strings/Moves is about memset and memmove, Strings/Text about texts.
-- Vm, P5_XV6_CoW_Fork/kernel/vm.c and mmu.h: page directories and tables are words (Common/Words) in the
--   bytes of the allocator's pages. walkpgdir, mappages, setupkvm, inituvm, uva2ka, copyout and pgfltintr
--   have their names; Vm/Space has allocuvm, deallocuvm, freevm, copyuvm and cowuvm. The loops run by the
--   pages left, copyout by the bytes left. An address 0 that the code reads or writes is `none` or `wild`.
--   Vm/CopyOnWrite is about the page fault, Vm/Share about the sharing of one page.
-- Bio, P5_XV6_CoW_Fork/kernel/bio.c: the cache with its pointers as functions, and a buffer's flags as Booleans.
--   The walks have fuel for every buffer and the head. Bio/Links is about doubly linked paths, Bio/Ring about
--   the ring as a list, Bio/Lookup and Bio/Once about bget.
-- Console, P5_XV6_CoW_Fork/kernel/console.c: the struct `input`, consoleintr over the keys that getc gives
--   (below 256), and the loop of consoleread up to where it gives up the lock. The loop that kills a line
--   has fuel for the whole buffer. Console/Typing is about keys, Console/Reading about readers;
--   Console/Print has cprintf and sets it against the printf of User.
-- Spinlock, P5_XV6_CoW_Fork/kernel/spinlock.c: pushcli and popcli; `advance` is the next step of a
--   processor that goes through acquire and release, one access of the lock each, with the two reads of
--   holding.
-- Syscall, P5_XV6_CoW_Fork/kernel/syscall.c and sysfile.c: the fetch of arguments from the memory of the
--   caller, argfd, fdalloc, sys_dup and sys_close.
-- User, P5_XV6_CoW_Fork/user/ulib.c and printf.c: the loops over texts have their fuel as an argument;
--   printint has 32 rounds, enough for 32 bits in any base from 2; the input of gets is a list of bytes.
-- Pipe, P5_XV6_CoW_Fork/kernel/pipe.c: `pipewrite` and `piperead` run from the point where they have the
--   lock to the point where they give it up: `Writing` and `Reading` say whether they return or sleep.
--   Pipe/Fifo is about one call, Pipe/History about any sequence of calls.
-- Proc, P4_XV6_Stride_Scheduling/kernel/proc.c, proc.h and sysproc.c: `Ptable` is `ptable` with the
--   global variables beside it, a pointer to a process is its slot. `select` is the scan of `scheduler`,
--   `switch_to` what it does up to swtch; sleep is cut in two where it calls sched. Proc/Lifecycle has
--   allocproc, fork, exit and wait over an interface of pages and files, `Resources`; each has a child
--   module. Proc/Select, Proc/Turns, Proc/Tickets and Proc/Wakeup are about the scheduler, the system
--   call settickets, and sleep, wakeup and kill.
-- File, P5_XV6_CoW_Fork/kernel/file.c and file.h: filealloc, filedup and fileclose on the table of files; a
--   pointer to a file is its index, and what fileclose does behind the lock is a value, `Closing`.
--   File/Refs sets the counts against the holders.
-- Psort, P6_Parallel_Sort/psort.c: merge, merge_sort and the part of main between reading and
--   writing, `sort_records`. The first loop of merge has fuel for every entry of the range, merge_sort fuel
--   above the length. Psort/Merge and Psort/Sort are about one thread, Psort/Threads about main.
-- Server, P8_Distributed_Systems/server.c, server_functions.c and shared_types.h: `serve` on a table and a
--   store, cut where idle sleeps; `none` is an access outside an array. Server/Table is the table as a
--   map, Server/Once one call, Server/Retry repeated requests, Server/Store the data.
-- Client, P8_Distributed_Systems/client.c and client.h: the loop of send_req_with_retry runs over the replies of
--   its rounds; `converse` puts it against `serve` with a network that loses packets, and with
--   other clients between the rounds.
-- Runscan, P7_File_Systems/runscan.c and read_ext2.c: the image is a function from addresses to bytes, and a word
--   that the loops read behind a block of pointers is a parameter. Copying loops run by the pointers left, the
--   loop over a directory has the block's size as fuel. Runscan/Blocks is about the copy of one file,
--   Runscan/Scan about the loop over all inodes. Runscan/Names is the second phase, on an output directory that
--   is a list of names and contents: Names/Copies and Names/Removal are about its two loops, Names/Numbers about
--   the names of its files.
-- Shell, P3_Unix_Shell/smash.c: a line becomes a list of events, in which a system call stands with its report of
--   an error; strtok, strdup, atoi and access of the C library, and whether pipe and fork succeed, are
--   parameters. Shell/Words is about white
--   space, Shell/Pipelines and Shell/Launch about pipelines and redirection, Shell/Loop about loop.
--
-- Fs, P5_XV6_CoW_Fork/kernel/fs.c and include/fs.h, for one device: `Fs` is `icache` with the bytes of the disk.
--   The buffer cache is seen through, so that a block read is its bytes on the disk. Fs/Blocks has balloc and
--   bfree, Fs/Inodes the cache from iget to iput and ialloc, Fs/Contents bmap, itrunc, readi and writei,
--   Fs/Directories dirlookup and dirlink, Fs/Paths namex, and Fs/Links the system calls of sysfile.c that make and
--   remove names. `Run` is a panic, a wait for a locked inode or a result; the loops run by what they have left, and namex by fuel above the length of the path.
--
-- Fortune, P1_Fortune_Teller/badger_fortune.c: the results of getopt are a list, files are their contents and
--   atoi is a parameter. Fortune/Options has the loop over the options, Fortune/Texts the rest of `main`; the
--   loop over the lines of the file has fuel above its bytes.
--
-- The parts meet where one calls another: kfree_init fills pages with `memset` of Strings, and the
-- processes ask the allocator and the files through `Resources`. The client converses with `serve`, the
-- system calls on descriptors use the table of files, and free blocks are cleared with `memset`.
--
-- Outside Spinlock, locks are not modelled: each routine runs from acquire to release as one step. Devices,
-- processor registers, trap frames, the disk's queue, sockets, and the creation of threads are not
-- modelled either: they are effects outside the program's own data.
pub mod Bio
pub mod Client
pub mod Common
pub mod Console
pub mod File
pub mod Fortune
pub mod Fs
pub mod Kmem
pub mod Pipe
pub mod Proc
pub mod Psort
pub mod Runscan
pub mod Server
pub mod Shell
pub mod Spinlock
pub mod Strings
pub mod Syscall
pub mod User
pub mod Vm
