-- ===== src/Tests.antt =====
-- Concrete machines and memories, and each theorem with conditions at one of them.
mod States
mod Queues
mod Trees
mod Semaphores
mod Syscalls
mod Running
mod Interrupts
mod Texts
mod Programs
mod Order
mod Kernel
mod Timers
mod Family
mod Spawn
mod Entry
mod Start
