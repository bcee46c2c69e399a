-- ===== src/External.antt =====
-- What the program calls and does not implement: interfaces that the model takes as parameters, each
-- with the documented behaviour that the theorems rely on as a record of laws of its own.
pub mod SerdeJson
pub mod Arrow
pub mod Lance
pub mod Storage
