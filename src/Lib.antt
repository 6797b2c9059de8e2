-- ===== src/Lib.antt =====
-- The PandOS kernel: process control blocks, active semaphores, namespaces, the scheduler, interrupts,
-- exceptions and system calls, translated from the C sources under pandos/.
--
-- The program. A process is a pcb_t, which is in at most one queue: the free list, the ready queue or
-- the queue of a semaphore. A semaphore that blocks a process has a descriptor (semd_t) in a hash
-- table under the semaphore's address; the other descriptors are in a free list. An exception saves
-- the processor state at BIOSDATAPAGE and enters exceptionHandler, which calls the interrupt handler,
-- the system call handler or passUpOrDie. Each of them ends in LDST, LDCXT, HALT, WAIT or PANIC; a
-- process that blocks or ends its time slice gives way by schedule.
--
-- The model. Mem is the state: the links of all lists (struct list_head), the contents of the hash
-- table, the fields of the structs as maps from addresses, the variables of scheduler.c and the
-- registers of the processor. A C function is a command, Mem to Run: it returns (ok), leaves the
-- kernel (exit, with the state that is loaded), reads or writes through NULL (fault), or runs past the
-- bound of a loop (out_of_fuel). Statements are in the order of the C code, and so are the tests that
-- come after the read that they should protect. Machine words and int are below 2 ^ 32, and wrap.
--
--   Mem, Outcome, Fields, Words   the state, commands and what is said of their results; struct fields
--   Links, Env                    the parameters: list.h and hashtable.h, the addresses of the
--                                 kernel's variables, the uMPS3 headers; Links/Rings is the theory of
--                                 circular lists, and Links/Linux a concrete list.h
--   Pcb                           pandos/phase1/pcb.c, util.c and include/util.h
--   Ash                           pandos/phase1/ash.c
--   Report                        getBlockedProcesses of pandos/phase1/ash.c, as its messages
--   Ns                            pandos/phase1/ns.c
--   Scheduler                     pandos/phase2/scheduler.c and include/processor.h
--   Devices                       pandos/phase2/devices.c
--   Interrupt                     pandos/phase2/interrupt.c (P is sem_p and V is sem_v)
--   Processes, DeviceIo, Syscall  pandos/phase2/syscall.c; passUpOrDie of exception.c is in Processes
--   Exception                     pandos/phase2/exception.c
--   Boot                          pandos/phase2/main.c
--   Invariant                     the kernel in order: the abstract lists that a memory stands for, and
--                                 the operations of pcb.c and ash.c on them
--   Kernel                        what the system calls and timers promise on the abstract lists, the
--                                 steps of the kernel and the states that they reach, and its start
--   Kernel/Family                 the process tree beside the lists: createProcess, and SYS2 and
--                                 passUpOrDie, which end a process with its progeny
--   Strings                       pandos/stdlib/memory.c and string.c, over a memory of bytes
--   Print                         pandos/stdlib/print.c, over those bytes and a terminal
--   Programs                      pandos/phase2/p2test_04.c: print, the processes and their trap handlers,
--                                 on a kernel that is a parameter
--   Instance, Tests               a concrete machine and memories
--
-- A function keeps its C name in snake_case (removeBlocked is remove_blocked). A loop over an array
-- recurses on the rounds that are left. A loop over a list has fuel 21 (list_steps), one round more
-- than the 20 processes (MAXPROC) that there are, since a process is in a list at most once; a walk
-- over the process tree has as much (tree_steps). itoa has 33 rounds, one more than a number below
-- 2 ^ 32 has digits; strlen and strcpy take their fuel as an argument, as nothing in the code bounds
-- a string, and so does the loop of p3 and p5b that waits for the pseudo clock (`rounds`).
--
-- The list functions do what Links.ListLaws says of them on a well-formed list: list_add, list_add_tail
-- and list_del of a linked node keep the list and touch no other links. The hash table functions do
-- what Env.HashLaws says: the loop over a bucket visits the node of the key, if there is one.
--
-- A kernel in order (Kernel.Steps.InOrder) has its lists in memory as rings, apart from each other: the
-- linker keeps the list heads, the blocks and the descriptors apart (Invariant.Layout), which `place`
-- says by a number for each address. A step is one of: a process that computes on its words and
-- registers, SYS3, SYS4 or SYS7 of the process that runs, the interrupts of the two timers and of a
-- device that is no terminal, schedule.
-- The progeny of a process is a tree (Kernel.Family.Forest): the children of each one, in order, are
-- the ring at its p_child. createProcess needs the array of pcb.c to lie at address 8 or above, for
-- container_of of a list head, which subtracts 20 from it in a loop over no children.
-- A process of p2test_04.c is a tree of the calls that it makes; the kernel answers each call, or does
-- not come back from it.
--
-- Not modelled: the calls that print in the kernel (before a panic, and the debug prints), the tests of
-- phase 1, and the copies of Linux headers, which are parameters. SYS1, SYS2, SYS5 and the terminal
-- interrupts are modelled, but are no steps of Kernel.Steps: its invariant does not tell the process
-- tree. The copy of a whole state_t in the kernel is one assignment, though the C code calls memcpy.
pub mod Prelude
pub mod Mem
pub mod Outcome
pub mod Links
pub mod Fields
pub mod Env
pub mod Pcb
pub mod Ns
pub mod Ash
pub mod Words
pub mod Scheduler
pub mod Devices
pub mod Interrupt
pub mod Processes
pub mod DeviceIo
pub mod Syscall
pub mod Invariant
pub mod Kernel
pub mod Strings
pub mod Print
pub mod Programs
pub mod Report
pub mod Exception
pub mod Boot
pub mod Instance
mod Tests
