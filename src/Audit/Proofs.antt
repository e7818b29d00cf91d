-- ===== src/Audit/Proofs.antt =====
-- What audit.py's check of a file means, and that an append keeps it.
pub mod Line
pub mod Fits
pub mod Append
pub mod Binding
