-- ===== src/Model.antt =====
-- backend/internal/model: the values that the other packages exchange.
pub mod Error
pub mod Version
pub mod Revision
pub mod Instance
pub mod Mutation
pub mod Member
