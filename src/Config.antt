-- ===== src/Config.antt =====
-- config/: hot reload, secrets, Vault, and the choice of the profile.
pub mod Reloadable
pub mod HotReload
pub mod Vault
pub mod Secrets
