-- ===== src/Handlers.antt =====
-- server/internal/handlers: the HTTP handlers. What they call of the database and of the users
-- table are the interfaces of options.go, as records of actions on a world `W`.
pub mod Options
pub mod Response
pub mod RefreshToken
pub mod Session
pub mod Refresh
pub mod Login
pub mod Callback
pub mod Revocation
