-- ===== src/Tests.antt =====
-- Concrete inputs for the theorems about kernel/, the earlier kernels and fuzzing/.
pub mod Pages
pub mod Blob
pub mod Boot
pub mod Tables
pub mod Heap
pub mod Tasks
pub mod Devices
pub mod Sync
pub mod Fuzzer
pub mod Requests
pub mod Stages
pub mod Disk
