-- ===== src/Domain.antt =====
-- include/domain: the plain data, the users, and the generated identifiers.
pub mod Records
pub mod User
pub mod Ids
