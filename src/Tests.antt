-- ===== src/Tests.antt =====
-- Runs of the models on concrete inputs, and the theorems at inputs that meet their hypotheses.
mod Codecs
mod Memory
mod Cooldown
mod Fallback
mod Classify
mod Routing
mod Session
mod Media
mod Cron
mod Tools
mod Channels
mod Bus
