-- ===== src/Compat.antt =====
-- The core/app compatibility contract: internal/engine/compat.go, and the site version ledger's
-- check of internal/engine/siteversion.go. A problem that the code words for an operator is a
-- value that says which problem it is, with what the sentence names.
pub mod Versions
pub mod Constraints
pub mod Order
pub mod Ranges
pub mod Printed
pub mod Checks
mod Tests
