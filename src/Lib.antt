-- ===== src/Lib.antt =====
-- A verification library for the kernel under tp1/src: a teaching kernel for the 32-bit x86, in C.
--
-- The parts of the program and the files that model them:
--
-- * The scheduler, tp1/src/kernel/sched.c: Sched.antt. The ready tasks are a circular list threaded
--   through the array `tasks`; `init`, `load`, `unblock`, `exit`, `block` and `tick` are the functions
--   `sched_*`. Sched/Queue.antt has the queue as a list of pids and its operations, Sched/Refine the
--   refinement, Sched/Ticks.antt turns, Sched/Lost.antt what two loads from idle lead to.
-- * The loader, tp1/src/kernel/loader.c and loader_switch.asm: Loader.antt. The task table, the wait
--   queues threaded through it (`enqueue`, `unqueue`), the chain of free pids, and the switch to
--   another task, which is the last thing that a function here does.
--   Loader/Process.antt makes and ends tasks: `loader_load`, `sys_fork` and `loader_exit`, over the
--   memory of Mm.antt and the descriptors of Device.antt; below it, what a load writes where.
-- * Semaphores, tp1/src/kernel/sem.c: Sem.antt, on the loader's queues. Sem/System puts scheduler,
--   loader and semaphores together: a relation of steps, and what holds in every reachable state.
-- * Ring.antt is the reasoning on circular lists that scheduler, wait queues and consoles share.
-- * Physical memory and paging, tp1/src/kernel/mm.c and tp1/src/include/mm.h: Mm.antt has the two
--   arrays of page frames and their allocation, Mm/Paging.antt directories, tables, mapping, forking
--   and `sys_palloc`, Mm/Paging/Directory.antt making, copying and freeing whole directories,
--   Mm/Fault.antt the page fault handler and the copy on write, which
--   `sys_palloc` and forking rely on, Mm/Init.antt the detection of the memory and the start.
-- * File descriptors, tp1/src/kernel/device.c: Device.antt, over any devices' functions.
-- * Consoles and the keyboard, tp1/src/kernel/con.c: Console.antt, with the readers' semaphores of
--   Sem.antt and the screen copies of Vga.antt; Console/Lifecycle.antt opens and closes,
--   Console/Output.antt writes.
-- * The text screen, tp1/src/kernel/vga.c: Vga.antt.
-- * Strings, tp1/src/kernel/lib_str.c: LibStr.antt, with the numbers in LibStr/Numbers.antt.
-- * Pipes, tp1/src/kernel/pipe.c: Pipe.antt, in pieces cut where a task may block.
--   Circular.antt has the circular buffers that pipes, consoles and the serial port share.
-- * The serial port, tp1/src/kernel/serial.c: Serial.antt, the ring of bytes received and what is sent.
-- * The floppy disk controller, tp1/src/kernel/fdd.c: Fdd.antt, over any ports, with the commands in
--   Fdd/Commands.antt, the reading of a sector in Fdd/Sector.antt and the block device in
--   Fdd/Block.antt; Dma.antt is tp1/src/kernel/dma.c, which `fdd_read_sector` sets up.
-- * The FAT12 file system, tp1/src/kernel/fat12.c: Fat12.antt has the table and the search of the root
--   directory, Fat12/Open.antt `fat12_create` and `fat12_open` over any block device, Fat12/File.antt
--   the open file. An entry of a table or a directory is decoded from its bytes.
-- * Opening by name, tp1/src/kernel/fs.c: Fs.antt says which driver is asked for what.
-- * Formatted printing, tp1/src/kernel/lib_printf.c: Printf.antt, with the arguments as a list.
-- * The descriptor tables, tp1/src/kernel/gdt.c and idt.c: Tables.antt, the entries and their packing.
-- * Base.antt and its children are what all of these share.
--
-- How the state corresponds: the static variables of a C file are the fields of one record under their
-- own names, and a function of the file is a function from that record to that record and what it
-- returns. An array is a function of the index. An unsigned word is a natural number, with `% 2 ^ 32`
-- where the C code can wrap; -1 as a pid or a descriptor is 2 ^ 32 - 1. A word that the code uses bit by
-- bit is its bits. The trace lines that the code prints are left out.
--
-- Bounds and fuel: a loop with a fixed number of rounds recurses on the rounds that are left. The loop
-- of `sem_broadcast` gets 32 rounds, since no queue holds more than the 31 pids of tasks, and the
-- theorem on it shows that they are enough. `sched_test_size` takes its fuel as an
-- argument, and so does the wait of `fdd_recalibrate` for an idle controller, which has no bound in
-- the source: running out is an error of its own. The loop of `memory_detect` takes its fuel as an
-- argument, too; as many rounds as there are words of memory are enough. `serial_read` goes round 64
-- times at most, once for each place of the buffer.
--
-- Not modelled: the pages of a file behind its first seven sectors, which the source never fills; the
-- initialisers, as far as they register interrupts and system calls; the task state segment, the
-- interrupt controller and the timer, which are instructions and writes to ports; the boot sector and
-- the assembly entry points.
pub mod Base
pub mod Circular
pub mod Ring
pub mod Sched
pub mod Loader
pub mod Sem
pub mod Vga
pub mod Console
pub mod Mm
pub mod Tables
pub mod Device
pub mod LibStr
pub mod Printf
pub mod Pipe
pub mod Serial
pub mod Dma
pub mod Fdd
pub mod Fat12
pub mod Fs
