-- ===== src/Web.antt =====
-- internal/web: what a request may do. Web/Requests is about the checks on a request, Web/Handlers
-- about what the handlers do to the unit and
-- Web/SignIn what they do to the sign-in, Web/Routes about which of them a
-- request reaches.
pub mod Requests
pub mod Handlers
pub mod SignIn
pub mod Routes
pub mod Sites
pub mod Guarded
mod Examples
