-- ===== src/Monitor.antt =====
-- av/main.c: admission of work, the normal form of paths, the file's digests, the daemon policy
-- and the verdict on an execve.
pub mod Admission
pub mod Path
pub mod Resolve
pub mod Digests
pub mod Policy
pub mod Verdict
