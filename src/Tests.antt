-- ===== src/Tests.antt =====
-- Concrete inputs: each theorem with hypotheses applied where they hold, and runs of the code.
mod Samples
mod Sha256Tests
mod DaemonTests
mod GuardTests
mod WindowTests
mod PathTests
mod SigtableTests
mod BehaviorTests
mod ListTests
mod NetlinkTests
mod MonitorTests
mod ProcTests
mod RapidTests
