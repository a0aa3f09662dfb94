-- ===== src/Calldata.antt =====
-- almanak_keeperhub/calldata.py: from calldata to the function, its arguments and its ABI.
pub mod Split
pub mod Inputs
pub mod Index
pub mod Values
pub mod Decode
pub mod Balanced
pub mod Types
pub mod Parts
pub mod Canonical
pub mod Keyed
pub mod Order
pub mod Named
pub mod Faithful
pub mod Tests
pub mod Grouped
pub mod RoundTrip
