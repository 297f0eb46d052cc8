-- ===== src/Tests.antt =====
-- Runs on concrete inputs, and the theorems applied to them.
mod Records
mod Gates
mod Breaker
mod Caches
mod Queues
mod Senders
mod Logs
mod Trackers
mod Delivery
mod Requests
mod Labels
mod Program
