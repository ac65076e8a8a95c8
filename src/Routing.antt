-- ===== src/Routing.antt =====
-- pkg/routing: which agent handles a message, and under which session key.
pub mod AgentId
pub mod SessionKey
pub mod Route
