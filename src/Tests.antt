-- ===== src/Tests.antt =====
-- Concrete states of the kernel, of lib/, of user/lib/ and of fs/, on which the theorems are tried.
mod Memory
mod Process
mod Library
mod Disk
mod Image
mod Forking
