-- ===== src/Tests.antt =====
-- The theorems at concrete inputs, with small concrete instances of what the program calls.
pub mod Stubs
pub mod Tables
pub mod Columns
pub mod Databases
pub mod Requests
pub mod Foreign
pub mod Server
pub mod Embedded
