-- ===== src/Tests.antt =====
-- The theorems at concrete inputs, on a platform that works.
mod Arrange
mod Reference
mod Sample
mod Run
mod Gate
mod Data
mod Calls
mod Kernel
mod Create
mod Opening
mod Vshelper
