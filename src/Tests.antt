-- ===== src/Tests.antt =====
-- Small file systems, queues, page maps, sets of processes and strings, and the theorems at them.
mod Samples
mod Blocks
mod Inodes
mod Files
mod FileCalls
mod Contents
mod Mount
mod Queues
mod Pages
mod Processes
mod Strings
mod Descriptors
mod Numbers
mod Copies
mod Traps
