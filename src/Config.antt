-- ===== src/Config.antt =====
-- internal/config/config.go
pub mod Errors
pub mod Shape
pub mod Tokens
pub mod Subjects
pub mod Cancels
pub mod Addresses
pub mod Checks
pub mod Sizes
pub mod Hosts
pub mod Names
pub mod Routes
pub mod Accepted
pub mod Mutual
pub mod Tls
pub mod Loading
pub mod Sample
pub mod Overflow
mod Tests
