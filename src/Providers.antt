-- ===== src/Providers.antt =====
-- pkg/providers: the error classes, the cooldown tracker, model references, the error classifier
-- and the fallback chain over several models.
pub mod Types
pub mod Cooldown
pub mod ModelRef
pub mod Classify
pub mod Fallback
