-- ===== src/Lib.antt =====
-- The xv6 kernel of Assignment 4 (xv6-Team-Assignment), modelled component by component.
--
-- Log (Assignment 4/xv6-Team-Assignment/log.c). `Log` holds `struct log` and its functions, one
-- definition for each: `install_trans`, `read_head`, `write_head`, `recover_from_log`, `initlog`,
-- `write_log`, `commit`, `begin_op`, `end_op` (its two critical sections are `end_op` and
-- `end_commit`) and `log_write`. A `for` loop over `tail` is a recursion on the rounds done. The
-- block layer that log.c calls (`bread`, `bwrite`, `brelse` of bio.c) is the interface
-- `Log.Blocks.BlockIo`: what a reader sees, what the medium holds, and how many writes still reach
-- the medium before the power fails. A spin lock's critical section is one atomic step, and the
-- tests of `log_write` that stand before its lock are part of that step. Sleeping is a result:
-- `begin_op` is tried again when it is woken. The pointer to the device is constant.
--
-- Kalloc (kalloc.c): `Kmem` is `kmem` and the memory as words; `kfree`, `kalloc`, `freerange`,
-- `kinit1`, `kinit2`. The rounds of `freerange` are bounded by the pages below the end of its
-- range, which is enough. The address at which the kernel ends is a parameter.
--
-- Pipe (pipe.c): `pipewrite` and `piperead` run up to their end or next sleep, and are made again
-- with what is left; `nread` and `nwrite` are 32-bit counters that wrap. `proc->killed` is an
-- argument. What each call wakes is said with its outcome.
--
-- Bytes (string.c, and stosb and stosl of x86.h): memory is a function of the address, bytes are
-- numbers, pointers do not wrap. `strlen` takes the rounds it may make.
--
-- Proc (proc.c): the process table as a list of `Proc`, in Proc and Proc.Family; what proc.c calls
-- in other files is the interface `Proc.Calls.Services`, over a state of its own. A critical
-- section under `ptable.lock` is one step, which ends at the switch to the scheduler. Panics on a
-- missing process or lock in `sleep` and the checks of `sched` are left out.
--
-- FileTable (file.c): the table of open files as a list of `File`, in FileTable with every function
-- of file.c; what file.c calls is the interface `FileTable.Calls.Services`. A reference to a file
-- is the number of its slot. `filewrite` has one round more than it has bytes to write, which is
-- enough, as each round writes a byte at least. Reference counts stay below the range of an int.
--
-- Path (skipelem and namex of fs.c): a path is the list of its bytes, a buffer for a name the list
-- of its bytes; the inodes are the interface `Inodes`. The loop of `namex` has one round more than
-- the path has bytes, which is enough, as each round takes a byte.
--
-- Fs (fs.c): the disk as its blocks of bytes, with what is passed to `log_write` listed, and
-- `bzero`, `balloc`, `bfree`. There `log_write` returns: what Fs, Inode, Icache, Content and Dir
-- say holds within a transaction whose log has room; Log has the panics of `log_write`. The
-- superblock is a parameter: the `readsb` in `bfree` reads it again. The loops run over the blocks
-- of the bitmap and the BPB bits of each, so their rounds are exact.
--
-- Inode (fs.c): `struct inode` with its 52 bytes of `addrs`, which are block numbers or the content
-- of a small file; `iupdate`, the reading part of `ilock`, `bmap`, `itrunc`, `stati`. Icache: the
-- cache of inodes as a list of entries with `iget`, `idup`, `ilock`, `iunlock`, `iput`, `ialloc`;
-- reference counts stay below the range of an int.
--
-- Content (fs.c): `readi` and `writei` over the memory of the caller, with 32-bit sums. The loops
-- have one round more than there are bytes, which is enough, as each round takes a byte. A call of
-- a driver is an outcome.
--
-- Dir (fs.c): `dirlookup` and `dirlink` over Content and Icache, with `de` at address 0 of the
-- memory. Their loops have a round for each entry and two more. Offsets wrap at 32 bits.
--
-- Bcache (bio.c, memide.c, sleeplock.c): the linked list of buffers as a list, in the order of use,
-- with `binit`, `bget` up to its `acquiresleep`, and `brelse`; Bcache.Io has the disk in memory
-- with `iderw`, and `bread` and `bwrite`. A call that finds the lock of its buffer held sleeps, and
-- goes on from `acquiresleep` when it is woken. The two sections of `brelse` are one step.
-- Bcache.Users has the processes that use a buffer, waiting or with its lock.
--
-- Shell (the parser of sh.c): a line is its bytes by their places, and a word is the places of its
-- ends, which `nulterminate` turns into strings. `parse` ties the functions that call each other
-- with fuel: four for each byte of the line and four more, which is proved enough. The loops take
-- that fuel too. What `runcmd` does with a command is left out.
--
-- Console (console.c): the input buffer of 128 bytes with its 32-bit indices; `consoleintr` runs
-- over the keys that `getc` returns, `consoleread` up to its end or next sleep, after which it goes
-- on with the bytes left and the same target. The loop of ^U has a round for each byte of the line
-- that is typed, which is enough. What `consputc` shows is a list.
--
-- Syscall (syscall.c, and sys_sysnumcall of sysproc.c): the arguments, over the bytes at the user's
-- addresses, and the dispatch, where the other calls are parameters. One CPU makes calls at a time:
-- the code counts them without a lock.
--
-- Sysfile (sysfile.c): every system call on files. What it calls in the rest of the kernel is the
-- interface `Sysfile.Services`, over a state of its own, where a call panics or returns; what those
-- calls take and give back, inode by inode, is `Sysfile.Laws.Laws`. The descriptors and the
-- directory of the process are part of the state. `isdirempty` makes one round for each entry, for
-- sizes below 2^31.
--
-- Spinlock (spinlock.c): one lock and any number of CPUs; `step` runs the next part of `acquire` or
-- `release` of one CPU, cut where another CPU can see the lock's words change. Each CPU takes only
-- this lock. The call stack in `pcs` and the barriers are left out: memory is sequential.
--
-- Base holds tests on numbers, lists with native indices and signed results.
--
-- Not modelled: devices, boot, interrupts and the user programs; page tables, the output of the
-- console, and how the shell runs commands.
pub mod Base
pub mod Bcache
pub mod Bytes
pub mod Console
pub mod Content
pub mod Dir
pub mod FileTable
pub mod Fs
pub mod Icache
pub mod Inode
pub mod Kalloc
pub mod Log
pub mod Path
pub mod Pipe
pub mod Proc
pub mod Shell
pub mod Spinlock
pub mod Syscall
pub mod Sysfile
