-- ===== src/Platform.antt =====
-- The hosted platform (the API and its worker, platform/apps/api/src).
pub mod Scopes
pub mod Sessions
pub mod Evaluator
pub mod Billing
pub mod Collector
pub mod Guard
pub mod Retry
pub mod Shell
pub mod Members
pub mod Access
pub mod Accounts
pub mod Servers
