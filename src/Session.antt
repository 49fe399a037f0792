-- ===== src/Session.antt =====
-- src/session.cpp: a session: its event handlers, its background tasks, and the wait for an answer.
pub mod Subscriptions
pub mod Lifecycle
pub mod Tasks
pub mod Waiting
pub mod Hooks
pub mod Modes
