-- ===== src/Tests.antt =====
-- Concrete machines, and the theorems applied to them.
mod Machine
mod Scheduling
mod Blocking
mod Ending
mod Tables
mod Memory
mod Paging
mod Stacks
mod Admission
mod Reaping
mod Heaps
