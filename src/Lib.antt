-- ===== src/Lib.antt =====
-- A small operating system kernel: its memory, its file system, its threads and its system calls.
--
-- The parts and how they interact.
-- BlockIo models kernel/block_io.h and kernel/block_io.cc: reads of byte ranges (`BlockIO::read`,
-- `read_all` and the template `read`) over a device that only reads blocks. The device is a record of
-- its block size, its size and its function that reads a block. The disk and an i-node are such devices.
-- Ext2 models kernel/ext2.h and kernel/ext2.cc. Ext2/Layout decodes the structures on the disk,
-- Ext2/Inode is the class `Node` as a device over the disk (Ext2/Inode/Symbol: symbolic links),
-- Ext2/Directory has the loops over the entries of a directory, Ext2/Mount the constructor of the class
-- `Ext2` and `get_node`, and Ext2/Path its `find`.
-- PhysMem models kernel/physmem.h and kernel/physmem.cc, the allocator of frames, and Vmm models
-- kernel/vmm.cc, the page tables, which live in such frames. Chain has the linked lists that the
-- allocator and the thread queues keep in memory.
-- Queue models kernel/queue.h and Semaphore models kernel/semaphore.h, which keeps its waiting threads
-- in such a queue.
-- Threads models `schedule`, `yield` and `stop` of kernel/threads.cc, with `block` of kernel/threads.h,
-- on one processor. Shared models kernel/shared.h, the counted references to objects.
-- Turns has threads that share a state and take turns, in the order of any schedule; Turns/Each says what
-- holds of each of them. On it stand Lock (`InterruptSafeLock` of kernel/atomic.h, between processors;
-- Lock/Flexible: `SpinLock` and `ISL`), Barrier (the class `Barrier` of kernel/barrier.h), Reusable
-- (`ReusableBarrier` of the same file, on the conditions of kernel/condition.h, which Condition models) and
-- Future (kernel/future.h); Buffer (`BoundedBuffer` of kernel/bb.h) has such threads too, whose steps also say
-- which value is put or taken. Barrier, Future and Buffer wait on semaphores; a `down` goes on there when
-- the semaphore has a permit, which is what Semaphore states of the semaphore with its queue.
-- Syscall models the system calls of kernel/sys.cc over the tables of kernel/process.h:
-- Syscall/Process has the tables, Syscall/Files `open`, `close`, `read`, `write`, `len` and `seek`,
-- Syscall/Directory `changeDir`, `pwd`, `ls` and `getDirEntriesLength`, Syscall/Semaphores `sem`, `up`
-- and `down`, Syscall/Fork `fork`, `wait` and `exit`, Syscall/Exec `execl` with the stack of a new program (and
-- that of the first one, of kernel/kernel.cc), and Syscall/Dispatch the `switch` of `sysHandler`.
-- Keyboard models kernel/keyboard.cc, with the system call that clears the line.
-- Heap models kernel/heap.cc: the array of words with the sizes of the blocks and the free list.
-- Heap/FreeList, Heap/Remove and Heap/Search are about the list, Heap/Tiles about the blocks, one behind
-- the other; Heap/Hole and Heap/Fill open a hole between two blocks, widen it and fill it, and Heap/Malloc,
-- Heap/Free and Heap/Start put these steps together for `malloc`, `free` and `heapInit`.
-- Elf models kernel/elf.h and kernel/elf.cc, which load a program; Elf/Format has the format of its file on
-- its own. Config models kernel/config.cc, the
-- search for the tables of the firmware, Ide models kernel/ide.cc, the driver of the disk, Idt
-- kernel/idt.cc and Random kernel/random.h. User/Wc and User/Grep model the
-- programs t0.dir/sbin/wc.c and t0.dir/sbin/grep.c, User/Shell the choice of a command in
-- t0.dir/sbin/shell.c and t0.dir/sbin/shellHandler.c, User/Shell/Demo the demonstration of the shell and its
-- loop, User/Cat t0.dir/sbin/cat.c, User/Exec the strings of t0.dir/sbin/exec.c and t0.dir/sbin/ls.c,
-- User/Exec/Pipe the line that joins `ls` and `cat`, User/Libc `puts` and `cp` of t0.dir/sbin/libc.c over the
-- system calls as a parameter, and User/FirstFit the heap of t0.dir/sbin/heap.c, over the blocks and the
-- functions of Heap.
-- Prelude (with Prelude/Tests and Prelude/Lists) and Word have what the parts share.
--
-- How the model is written.
-- A pointer is the number of its address, and 0 is null. Memory is a function from addresses, and an
-- `int` or `uint32_t` a natural number below 2^32 whose wrap-around is written out (Word). A failed
-- assertion, a panic and an access outside an object is `none`. A buffer that a function fills is
-- returned. An object that several owners share lies in a store under its own number. A call that holds
-- a lock up to its end is one step.
-- The functions that a loop of the source makes run on fuel. `read_all` has one round more than it has
-- bytes to read, since each round reads one at least. The loops over a directory have one round more
-- than the directory has bytes; an entry of size 0 would hold them for ever, and is `none` here. `find`
-- of a path has one round more than the path has characters. The search of the heap has one round more
-- than the array has words, in the kernel and in the user heap. The searches of Config have a round for each
-- of the addresses of their fixed ranges and one more; the loops that wait for a drive, those over
-- the strings of a user program, the loop over the processors and that over the headers of a program take
-- their fuel as an argument. `changeDir` does so too; the theorems about it ask for more than both strings
-- have characters together.
--
-- What is not modelled.
-- The creation of threads, their deletion and the scheduling on several processors, the timer
-- and the other devices, the programs of t0.dir/sbin that make one call each, and the
-- test program t0.dir/sbin/init.c are not modelled. The ports of the machine are a parameter of Ide. Assembly, start-up code
-- and output are not modelled: they act on registers. The implementations of
-- formatted printing in kernel/snprintf.cc and t0.dir/sbin/printf.c are third-party code.
-- The assertions of `wait` of a condition on the interrupt flag have no place in the state of Reusable.
pub mod Prelude
pub mod Word
pub mod Chain
pub mod BlockIo
pub mod Ext2
pub mod PhysMem
pub mod Vmm
pub mod Queue
pub mod Semaphore
pub mod Syscall
pub mod Keyboard
pub mod Heap
pub mod Elf
pub mod User
pub mod Tests
pub mod Shared
pub mod Buffer
pub mod Turns
pub mod Barrier
pub mod Future
pub mod Lock
pub mod Threads
pub mod Condition
pub mod Reusable
pub mod Config
pub mod Ide
pub mod Random
pub mod Idt
