-- ===== src/Lib.antt =====
-- The DLX operating system in flat/os: a file system with its driver (dfs.c), which keeps inodes, a
-- free block vector and data blocks on a disk (disk.c), and the file API (files.c) that processes
-- call; the processes and their scheduler (process.c) over linked queues (queue.c); the memory
-- manager (memory.c); the system calls and interrupts (traps.c) with the clock (clock.c); and the
-- simulator's own files (filesys.c), from which programs are loaded.
--
-- How the parts work together. FileOpen, FileRead and the others check the caller's process against
-- the table of open files, take the file lock and call the driver's inode functions. Those take the
-- inode lock, translate a file's blocks through the inode's table, and allocate, free, read and
-- write file system blocks under the locks of the free block vector and of the blocks. A file system
-- block is one or more disk blocks of 512 bytes, which disk.c keeps in a file of the host. A process
-- control block stands in one of four queues (free, runnable, waiting, zombies) by a link of the
-- pool of queue.c. Each move of a process gives its link back to the list of free links and takes a
-- new one; the scheduler rotates the queue of runnable processes and gives the pages of dead ones
-- back to the memory manager, whose map has a bit for each free page. The clock counts timer
-- interrupts and calls the scheduler at the end of each quantum. A system call copies its arguments
-- from the caller's pages; process_create packs them into a buffer, which ProcessFork copies to the
-- new process's page and takes apart again.
--
-- Which file models which part:
--   * Os: runs and their results, the calls that leave the modelled code, and the parameters.
--   * Dfs: the statics of flat/os/dfs.c as the record State, the structures of
--     flat/include/dfs_shared.h, DfsCheckSystem and DfsInvalidate (`dfs_check_system`,
--     `dfs_invalidate`).
--   * Dfs/Fbv: DfsAllocateBlock, DfsFreeBlock, find_Open_Bit, find_Open_Block and block_allocated.
--     Laws in Dfs/Fbv/Bits, Dfs/Fbv/Alloc and Dfs/Fbv/Free.
--   * Dfs/Block: DfsReadBlock and DfsWriteBlock. Laws in Dfs/Block/Laws and Dfs/Block/Errors.
--   * Dfs/Inodes: DfsInodeFilenameExists, DfsInodeOpen, DfsInodeFilesize and
--     DfsInodeWriteReadBytesValidateInput (`validate_input`). Laws in Dfs/Inodes/Find and
--     Dfs/Inodes/Open.
--   * Dfs/Virtual: DfsInodeAllocateVirtualBlock and DfsInodeTranslateVirtualToFilesys
--     (`dfs_inode_translate`). Laws in Dfs/Virtual/Laws.
--   * Dfs/Delete: DfsInodeDelete. Laws in Dfs/Delete/Laws.
--   * Dfs/Bytes: DfsInodeReadBytes and DfsInodeWriteBytes. Laws in Dfs/Bytes/Laws and
--     Dfs/Bytes/FirstBlock.
--   * Dfs/Mount: DfsModuleInit, DfsOpenFileSystem and DfsCloseFileSystem, with the bytes of the
--     metadata on the disk. Laws in Dfs/Mount/Layout (the bytes of structures), Dfs/Mount/Stored (the
--     loops that write), Dfs/Mount/Save and Dfs/Mount/Close.
--   * Disk: flat/os/disk.c. Laws in Disk/Laws.
--   * Misc: dstrlen, dstrncmp, dstrncpy, dstrcpy, dstrcat, dindex, dmindex, dstrstr,
--     bzero, min and max (`min_int`, `max_int`) of flat/os/misc.c. Laws in Misc/Names and
--     Misc/Strings. Misc/Numbers: ditoa and dstrtol, with what their loops compute in
--     Misc/Numbers/Digits and laws in Misc/Numbers/RoundTrip.
--   * Filesys: the open files of flat/os/filesys.c, over the simulator's file traps: FsOpen, FsClose,
--     FsRead, FsWrite, FsSeek, FsDelete, FsModuleInit and the functions of the two drivers.
--     Filesys/Slots has the table, laws in Filesys/Laws, Filesys/Open, Filesys/Init, Filesys/Follows,
--     Filesys/Calls and Filesys/Start.
--   * Files: the table of open files of flat/os/files.c, getFileMode, NullifyFileEntry,
--     FileModuleInit and FileClose; Files/Open has FileOpen and FileDelete, Files/Transfer has
--     FileRead, FileWrite and FileSeek. Laws in Files/Laws and Files/Open/Laws.
--   * Queue: the links and queues of flat/os/queue.c as numbered records in the record Store, and
--     all AQueue functions. Queue/Seg, Queue/Splice and Queue/Relink have the doubly linked segments
--     and what the assignments do to them, Queue/Model the list that a queue stands for; laws in
--     Queue/Insert, Queue/Remove, Queue/Move and Queue/Pool. Queue/Insertion is what the processes
--     use of the insertions.
--   * Memory: the statics of flat/os/memory.c as the record Memory, MemoryModuleInit,
--     MemoryAllocPage, MemoryFreePage, MemoryTranslateUserToSystem, MemoryGetOperandAddress and the
--     page table entries. Memory/Map has the map as a set of pages; laws in Memory/Pages,
--     Memory/Freed, Memory/Init and Memory/Pte, the searches in Memory/Alloc. Memory/Copy:
--     moveBetweenSpaces, MemoryCopySystemToUser and MemoryCopyUserToSystem over the machine's bytes
--     (bcopy is `copy_bytes`). Laws in Memory/Copy/Bytes, Memory/Copy/Pages, Memory/Copy/Move and
--     Memory/Copy/Laws.
--   * Process: the control blocks and the four queues of flat/os/process.c as the record System,
--     ProcessModuleInit, ProcessSetStatus, ProcessSuspend, ProcessWakeup, ProcessDestroy,
--     ProcessFreeResources, ProcessSchedule and get_argument. Laws in Process/Status, Process/Free
--     and Process/Schedule, the moves between queues in Process/Moves. Process/Fork: the array of
--     arguments that ProcessFork builds; laws in Process/Fork/Parse and Process/Fork/Stack.
--   * Traps/Create: TrapProcessCreateHandler of flat/os/traps.c. Laws in Traps/Create/Pack and
--     Traps/Create/Start, the latter together with ProcessFork.
--   * Traps/FileCalls: the handlers of the file calls and of disk_write_block in flat/os/traps.c,
--     which copy arguments to flat/os/files.c and flat/os/disk.c. Laws in Traps/FileCalls/Laws.
--   * Traps/Clock: flat/os/clock.c. Laws in Traps/Clock/Quantum.
--   * Traps/Printf: TrapPrintfHandler of flat/os/traps.c up to its call of printf. Formats as items in
--     Traps/Printf/Items, laws in Traps/Printf/Steps and Traps/Printf/Bounds.
--   * Traps/Timer: the cases of dointerrupt that call the scheduler. Laws in Traps/Timer/Preempt.
--   * Prelude: numbers, Booleans, lists, the bits of 32-bit words.
--   * Tests: small file systems, queues, page maps and sets of processes, and the theorems at them.
--
-- How code becomes definitions. A function is a command on the state: `ok` with a result and a new
-- state, `fault` for undefined behaviour (an index out of an array, a division by zero), `exited`
-- for GracefulExit. A `uint32` or an `int` is its 32-bit pattern as a number, and sums and
-- differences that can wrap are taken modulo 2 ^ 32; DFS_FAIL and FILE_FAIL are 0xFFFF_FFFF. A
-- `char` buffer is the list of its bytes, and a function that fills a caller's buffer returns it.
-- The early returns of the C code are branches, so that a lock which a path does not give back is
-- still taken: every lock call and every call to the host stands in the state's history, newest
-- first. Loops recurse on the number of rounds that are left, which their bounds give. Three loops
-- have no such bound and take fuel: the search of MemoryAllocPage for a word of the map that is not
-- 0, with as much fuel as the map has words, which is enough whenever the count of free pages is
-- right and not 0; and ProcessSchedule's loop over the zombies, with as much as there are zombies,
-- each round taking one. dmindex takes any fuel. moveBetweenSpaces has a
-- round for each byte that is left, since a round copies at least one; ditoa's loops have ten rounds,
-- one for each power of ten that fits an `int`, and a loop that used them up has a result of its own; and ProcessFork's loop has 101, since get_argument
-- looks at 100 characters.
--
-- Parameters. Code that is not C source of the repository is the record Env: whether a lock call
-- (lib/synch.o) or a call to the host's files succeeds, what a failed host write leaves behind, what
-- uninitialised arrays hold, the machine's byte order, its shift by a count that C leaves undefined,
-- and the byte at an address near null. Theorems name what they need of it: `Succeeds` (every call
-- succeeds), `MasksShift` (a shift uses the low five bits of its count), `HasBuffers` (a local block
-- buffer has 1024 bytes), `HasByteOrder` (a word's four bytes load as the word). The process number that GetCurrentPid gives is a field of the kernel's
-- state.
--
-- disk.c and filesys.c are modelled apart: what FsOpen, FsSeek, FsRead, FsWrite and FsClose do for
-- disk.c are answers of Env, where an open that succeeds starts at the first byte and a seek that fails
-- stays there. The simulator's file traps are the record Host of Filesys. What a copy from the caller's memory
-- brings to TrapProcessCreateHandler, the handlers of Traps/FileCalls and TrapPrintfHandler is the
-- record Space.
--
-- Not modelled: DiskCreate, LockCreate; ClkGetCurTime, which computes
-- a floating point number; ProcessFork but for its arguments, main and the loader of process.c, and
-- the fields of a control block that only they use; of traps.c the keyboard and the cases of dointerrupt that only call
-- a handler and store its result; sysproc.c, all of which is a comment; printing, the ASSERT macro included,
-- which only prints; the assembly; the test programs; the multilevel variant, an earlier copy of the
-- kernel whose queue.c, memory.c, misc.c, clock.c and filesys.c are the same text. Interleavings of
-- processes are not modelled: a command runs from its call to its return.
pub mod Prelude
pub mod Os
pub mod Dfs
pub mod Disk
pub mod Files
pub mod Filesys
pub mod Misc
pub mod Queue
pub mod Memory
pub mod Process
pub mod Traps
mod Tests
