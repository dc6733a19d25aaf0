-- ===== src/Examples.antt =====
-- Concrete data, small runs of the models, and the theorems applied to them.
pub mod Runtime
pub mod Remembering
pub mod Tokens
pub mod Tools
pub mod Disclosing
pub mod Carrying
pub mod Events
pub mod Sessions
pub mod Approving
pub mod Addresses
