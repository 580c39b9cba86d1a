-- ===== src/Lib.antt =====
-- Verification of three programs of an operating systems course: the scheduler of a JOS kernel
-- (sched/), the file system fisopfs (fisopfs/) and a shell (shell/).
--
-- Prelude holds what the parts share: tests on native numbers, lists and their lemmas.
--
-- Kernel: environments and scheduling, sched/kern/sched.c and sched.h, with struct Env of
-- sched/inc/env.h and env_run of sched/kern/env.c. The table of environments, the four queues and
-- the counters are one record; a queue is a function on the NENV slots of its ring. Kernel/Sched
-- has the operations on queues and the boost, Kernel/Sched/Yield both versions of sched_yield, and
-- the other files what they do: Ring and Destroy one queue, Levels the four, Boost, Pick, Run,
-- Choose, Priority and Service the scheduler with priorities, RoundRobin the other one. Numbers
-- are natural; a loop runs on the number of rounds that the code bounds it by. Not modelled: the
-- statistics that are printed, the waiting for an interrupt, the loading of page tables and
-- registers, overflow of the counters of runs and of the indices `last` and `beginning` of a ring,
-- which are int in the source.
--
-- Memory: sched/kern/pmap.c with the conversions of pmap.h, mmu.h and memlayout.h in sched/inc. A
-- page is its number, the words of a page are a function on its indices, and a panic is none.
-- Memory/Pages has the list of free pages and the counts of references, Memory/Pages/Collect which
-- pages become free, Memory/Tables the page tables, Memory/Tables/Permissions the test of rights,
-- Memory/Tables/Space the user part of an address space as one function from page numbers to
-- entries with the invariant IsSpace, and what insertion and removal do to it. Every loop runs on
-- the number of its rounds. Not modelled: mem_init, mmio_map_region, large pages, the cache of
-- translations of the processor.
--
-- Machine: sched/kern/env.c and sched/kern/syscall.c, on the environments of Kernel and the pages of
-- Memory together. A panic, a null pointer and other undefined accesses are none; a call either
-- returns a value or goes to the scheduler. Machine has envid2env, env_init and env_alloc,
-- Machine/Destroy env_free and env_destroy, Machine/Syscall the system calls. Machine/Resolve is
-- about identifiers, Machine/EnvList about the list of free environments and new ones,
-- Machine/Destroy/Flush, Untable and Free about what env_free gives back,
-- Machine/Syscall/Pages about sys_page_alloc, Machine/Syscall/Ipc/Messages and Priority about
-- messages and priorities. Sums of identifiers wrap
-- around in two's complement. Not modelled: the loading of programs, what is printed.
--
-- Console: the ring of input characters of sched/kern/console.c. What the devices answer is a list
-- that ends where the device answers -1; Console/Ring has the ring as a queue. Not modelled: the
-- registers of the devices.
--
-- Fisopfs: fisopfs/file.h, file.c and fisopfs.c. A pointer to a block is the list of all its
-- bytes, so an access outside of a block is an outcome, none, of every operation. Fisopfs/Buffer
-- has the calls of the C library on such blocks, Fisopfs/File the table of inodes and directory
-- entries, Fisopfs/Ops the operations that FUSE calls, Fisopfs/Disk saving and loading. Which
-- allocations succeed, the clock, the owner of the process and the room behind the path that FUSE
-- passes are a parameter, Host. Loops that
-- read lines get the length of the text as fuel: each round reads at least one byte. A directory
-- stays below 2 ^ 31 bytes. Not modelled: FUSE, the debug output, failures of the image file.
--
-- Shell: shell/types.h, defs.h, createcmd.c, parsing.c and the functions on lines of utils.c
-- (Shell and Shell/Parsing), builtin.c, freecmd.c and runcmd.c (Shell/Builtin), exec.c
-- (Shell/Exec, where a pipe is known by the process that makes it). A line is the block of bytes that starts at the pointer; an access outside of an
-- array or through a null pointer is none. The loop of parse_exec has the length of the string as
-- fuel, since each round takes at least one byte; parse_line makes at most one call more than
-- there are bars, and run_cmd gives it the length of the block. The environment, the text of the
-- last status and the answers of chdir and getcwd are parameters. Not modelled: descriptors and
-- the failures of dup2, pipe and fork, signals, the prompt's printing and the reading of lines.
--
-- Not modelled: the rest of the kernel (traps, devices, locks), the programs of its users and their
-- library, printing and the tests.
pub mod Prelude
pub mod Kernel
pub mod Memory
pub mod Machine
pub mod Console
pub mod Fisopfs
pub mod Shell
