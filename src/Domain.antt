-- ===== src/Domain.antt =====
-- internal/domain: the enumerations and the records that the kernel and the store share.
pub mod Enums
pub mod Entities
pub mod Records
pub mod Texts
