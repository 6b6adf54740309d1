-- ===== src/Dto.antt =====
-- The wire types of src/dto.
pub mod Capabilities
pub mod Request
pub mod Result
pub mod Write
