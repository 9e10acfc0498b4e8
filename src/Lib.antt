-- ===== src/Lib.antt =====
-- The xv6 kernel for RISC-V (xv6-riscv/): spin locks and sleep locks, the physical page
-- allocator, the process table, pipes, file descriptors and the table of open files, the file
-- system with its buffer cache and crash-recovering log, and the console with its serial port and
-- printing of numbers; of the programs in user/, the matcher of grep. Every part of the kernel
-- takes its locks by Spinlock; Sleeplock and Proc.Wait meet in sleep and wakeup; Log stands on
-- the contract that Bio keeps, Fs on that of both, and Sysfile on File.
--
-- Each part is modelled from its C file, function by function, with the names of the source. A
-- function that changes state takes the state and returns the new one in an Outcome: a value, a
-- panic with its message, or a wait that the hart itself cannot end (Outcome.antt).
--
-- * Spinlock (kernel/spinlock.c): acquire, release, holding, push_off and pop_off of one hart;
--   Spinlock.Exclusion interleaves any number of harts.
-- * Kalloc (kernel/kalloc.c): the free list of pages as a chain through memory, word by word.
--   freerange runs on fuel, one round for each page below its end and one more.
-- * Log (kernel/log.c): the log header, commit, recovery and the reservation of space, over the
--   contract of the buffer cache. The number of block writes left before a crash is part of the
--   state. In Log.Space operations go on between the critical sections of an end_op that commits.
--   The header that recovery reads may name any number of blocks, where the source has room for
--   30.
--
-- * Pipe (kernel/pipe.c): the ring of bytes with its two 32-bit counters. A call returns when it
--   is done or when it would sleep, with the channels it has woken.
--
-- * Str (kernel/string.c): the routines over byte memory. strlen runs on fuel, the number of
--   bytes looked at.
--
-- * Proc (kernel/proc.c): the process table with a lock for each slot. Proc.Wait holds wait,
--   sleep, yield and the tests of sched; a call ends where it returns or switches to the
--   scheduler. Proc.Exit holds reparent and exit, without the closing of files. The memory that
--   kalloc and proc_pagetable return is an argument.
--
-- * Sleeplock (kernel/sleeplock.c): locks that a process waits for asleep, over the process
--   table.
--
-- * Bio (kernel/bio.c): the ring of buffers of the cache, link by link. The loops of bget run on
--   fuel, one round more than there are buffers.
--
-- * File (kernel/file.c): the table of open files with its counts of references.
--
-- * Sysfile (kernel/sysfile.c): argfd, fdalloc, sys_dup and sys_close over the table of open
--   files, for the descriptors of one process; the holders elsewhere are an argument.
--
-- * Fs (kernel/fs.c): the file system byte by byte, over the contract that Bio and Log keep: a
--   block is what processes see of it, bread locks its buffer, and log_write notes its number in
--   the header of the log, or panics as in kernel/log.c where there is no room; the lock of the
--   log is free between calls. Fs.Balloc is the free map, Fs.Inode the inodes on disk, Fs.Itable
--   their table in memory, Fs.Data what files hold, and Fs.Dir directories and paths. The loops
--   of balloc, readi, writei, dirlookup and namex run on fuel, one or two rounds more than there
--   are blocks, entries or path elements; copyout and copyin of kernel/vm.c are arguments.
--
-- * Console (kernel/console.c): the editing of input lines by consoleintr and their reading by
--   consoleread, over a ring of 128 bytes with three 32-bit counters. A call that sleeps returns,
--   and is resumed with the bytes that are left. Control-U erases for at most as many rounds as
--   the ring has bytes.
--
-- * Uart (kernel/uart.c): the transmit buffer, with the number of characters that the port takes
--   before it is busy as an argument; of uartintr its end, without the reading of input.
--
-- * Printf (kernel/printf.c, user/printf.c, user/ulib.c): printint with its buffer of 16 bytes,
--   printptr, and atoi. The digits run on fuel, one round for each bit of the number.
--
-- * Grep (user/grep.c): the matcher, and what patterns mean.
--
-- Of the parts above, these functions are not modelled: fork, userinit, growproc, scheduler and
-- the page table functions of kernel/proc.c, pipealloc, bread and the sleep locks of the buffers
-- of kernel/bio.c, fileread, filewrite and filestat, readsb, fsinit and iinit. Not modelled are
-- the other calls of sysfile.c, vm.c, exec.c, trap.c, the format loop of printf.c, the device
-- registers and drivers, and the start-up code of kernel/, the rest of user/, and mkfs/: tests,
-- loops on system calls, code on machine registers, and parts that stand on those.
pub mod Prelude
pub mod Outcome
pub mod Spinlock
pub mod Kalloc
pub mod Log
pub mod Pipe
pub mod Str
pub mod Printf
pub mod Uart
pub mod Proc
pub mod Sleeplock
pub mod Bio
pub mod Console
pub mod File
pub mod Sysfile
pub mod Fs
pub mod Grep
