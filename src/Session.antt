-- ===== src/Session.antt =====
-- pkg/session: the two backends of the agent loop's sessions.
pub mod Manager
pub mod Backend
