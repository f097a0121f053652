-- ===== src/Metadata.antt =====
-- services/metadata-service: the catalogue of files, their versions and their chunks.
pub mod Files
pub mod Service
pub mod Routes
