-- ===== src/Lib.antt =====
-- jimirOS, a kernel for i386 in C, as definitions with their properties.
--
-- The parts and the files here that model them (paths from the root of the repository):
--   Common       shared names: Boolean tests, arrays as lists, single bits of words, integers
--   Sched        kernel/sched/sched.c, the kernel threads, with kernel/arch/i386/switch.S
--   Process      kernel/proc/process.c, the table of user processes
--   Htas         kernel/sched/htas.c, the topology-aware scheduler of processes
--   Schedule     process_schedule of kernel/proc/process.c, which the timer calls: it saves the
--                registers, asks Htas for the next process and loads that one's registers
--   Pmm          kernel/mm/pmm.c, the allocator of physical frames
--   Keyboard     kernel/drivers/keyboard.c
--   Block        kernel/storage/block.c, over the AHCI and ATA drivers as a parameter
--   Ext2         kernel/fs/ext2.c: mounting and the block cache, inodes, the root directory (Mount,
--                Directory), open files (Descriptors)
--   Fs           kernel/fs/fs.c, which chooses the disk or a module and copies that to the disk
--
-- A component's file holds its state as a record and a function for each C function, under the C
-- name; a loop or a branch of a long function has a definition of its own, which says so. A
-- function that changes static variables takes the record and returns it. The children of a
-- component state what holds: its invariant (a predicate IsValid), what each operation does, and
-- runs on concrete states in Tests.
--
-- Numbers are natural numbers, with the wrap of a machine word written out where the code can
-- reach it. The loops recur on the rounds left or on the table. The one loop that need not end is
-- that of process_wait: it takes the list of what the rest of the system does at each of its
-- halts, and a run that uses the list up is `halted`. Five loops of ext2 take fuel: those over a
-- file one more than the bytes asked for, those over an inode, a block and the descriptor table one
-- more than its bytes; each round moves by a byte at least while the block size is not 0, as it is
-- while a file system is mounted. An access out of an array's bounds reads a default and writes
-- nothing; the invariants of the tables exclude it, but for the buffer of the keyboard, whose model
-- has all the cells that the indices reach; in Ext2 a name that runs past its block reads 0, and the
-- buffer for the record of an inode is taken to be large enough.
--
-- The bytes of an image and of the disk are lists; a transfer by a driver moves all its bytes or
-- fails and moves none, and `kmalloc` is a parameter that tells which requests get memory.
-- The drivers of disks can fail after a part of a transfer; that is left out. So is an access to
-- the image at a block whose end wraps round 2^32, where the code leaves the image. A superblock
-- with 0 inodes per group faults in the code; Ext2 goes on with it. The memory map of the boot
-- loader is a list of its entries, so that entry sizes that loop or wrap are left out. The next pid
-- is taken not to pass INT_MAX, and the pops of ctx_switch are left out.
--
-- Not modelled: paging and the heap, the loader of programs, system calls, the terminal, the shell
-- and the benchmarks; the drivers of devices other than the keyboard and port I/O, interrupt and
-- descriptor tables, assembly other than the switch of stacks, and the printing of messages.
pub mod Common
pub mod Sched
pub mod Process
pub mod Htas
pub mod Schedule
pub mod Pmm
pub mod Keyboard
pub mod Block
pub mod Ext2
pub mod Fs
