-- ===== src/Storage.antt =====
-- backend/app/infrastructure/storage/object_storage_adapter.py
pub mod Client
pub mod Keys
pub mod Adapter
pub mod Faults
pub mod RoundTrip
pub mod Store
pub mod Calls
pub mod Sharing
pub mod Isolation
