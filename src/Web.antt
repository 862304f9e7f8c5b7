-- ===== src/Web.antt =====
-- apps/web/lib: what the web application checks before it shows a public passport,
-- before it passes a request on, and while it reads a body.
pub mod BackendPolicy
pub mod PublicPassport
