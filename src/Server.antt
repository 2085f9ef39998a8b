-- ===== src/Server.antt =====
-- The server's side: logins, the handlers of commands and their dispatch, presence on the field, and
-- the frame in which all of it runs.
pub mod Handlers
pub mod Challenge
pub mod Dispatcher
pub mod Presence
pub mod ClientSession
pub mod Runtime
