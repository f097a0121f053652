-- ===== src/Web.antt =====
-- The web application (apps/web), as far as it keeps a state of its own.
pub mod Api
pub mod Bell
pub mod Login
pub mod TopNav
pub mod Dashboard
