-- ===== src/Storage.antt =====
-- services/storage-service.
pub mod Chunking
pub mod Interfaces
pub mod Client
pub mod Minio
pub mod LocalFs
pub mod Publisher
pub mod Upload
pub mod Download
pub mod Routes
