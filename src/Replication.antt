-- ===== src/Replication.antt =====
-- services/replication-service.
pub mod Nodes
pub mod Replicas
pub mod Routes
pub mod Service
pub mod Healing
pub mod Heartbeat
pub mod Consumer
pub mod Steps
pub mod NodeStorage
