-- ===== src/Domain.antt =====
-- domain/: exceptions and entities.
pub mod Exceptions
pub mod Entities
