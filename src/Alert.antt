-- ===== src/Alert.antt =====
-- internal/alert: one child for each component, and those that they share: Notification, Key, and the
-- interfaces Cooldown, Sliding, BoundedLog and PerKey.
pub mod Notification
pub mod Key
pub mod Cooldown
pub mod Limiter
pub mod Dedup
pub mod Circuit
pub mod Sliding
pub mod Throttle
pub mod Window
pub mod Priority
pub mod BoundedLog
pub mod Tap
pub mod Audit
pub mod DeadLetter
pub mod Replay
pub mod Filter
pub mod Router
pub mod Mux
pub mod Pipeline
pub mod Quorum
pub mod PerKey
pub mod LoadShed
pub mod Bulkhead
pub mod Correlate
pub mod Escalation
pub mod Suppress
pub mod Checkpoint
pub mod Batch
pub mod Backoff
pub mod Digest
pub mod Fanout
pub mod Observe
pub mod Hedge
pub mod Retry
pub mod Metadata
pub mod Label
pub mod Enrich
pub mod Transform
pub mod Shadow
pub mod Sampling
pub mod Jitter
pub mod Timeout
pub mod Cache
pub mod Cached
pub mod Gates
pub mod RateLimit
pub mod Channel
