-- ===== src/Auth.antt =====
-- apps/auth-service: the one-time passwords of the registration and of the password reset.
pub mod Data
pub mod Otp
pub mod Accounts
pub mod Sessions
pub mod Cms
