-- ===== src/Auth.antt =====
-- packages/shared-auth and services/auth-service: tokens, accounts, and the check of a request.
pub mod Tokens
pub mod Accounts
pub mod Routes
