-- ===== src/App.antt =====
-- The application (internal/app/app.go).
pub mod Accepted
pub mod Routes
pub mod Keys
pub mod Pipeline
pub mod Identity
pub mod Start
mod Refused
pub mod Busy
