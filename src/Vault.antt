-- ===== src/Vault.antt =====
-- src/vault.rs and src/vault/: the store's vault and the vaults of a database.
pub mod Statements
pub mod Call
pub mod Status
pub mod Store
pub mod Handle
