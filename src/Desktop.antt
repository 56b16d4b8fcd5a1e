-- ===== src/Desktop.antt =====
-- The desktop client (the main process of the Electron application, src/main).
pub mod Connectivity
pub mod Updater
pub mod Alerts
pub mod Ssh
pub mod Store
pub mod Monitors
pub mod Kubernetes
