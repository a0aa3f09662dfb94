-- ===== src/Python.antt =====
-- The parts of Python's run time that the package computes with: text, JSON values and the
-- effects of a method call.
pub mod Text
pub mod Json
pub mod Dumps
pub mod Bytes
