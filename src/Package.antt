-- ===== src/Package.antt =====
-- src/package.cpp: the operations of a package that is being built, in three parts.
pub mod Outputs
pub mod Info
pub mod Cache
pub mod Steps
pub mod Sources
