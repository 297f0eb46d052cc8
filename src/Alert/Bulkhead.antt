-- ===== src/Alert/Bulkhead.antt =====
-- internal/alert/bulkhead.go. The semaphore is a channel of capacity `max_concurrent`, of which only
-- the number of elements matters.
pub mod Steps
use portwatch.Base.{
  ℕ, suc, ◌+◌, ◌-◌, ltb, ℤ, pos, pos_part, negsuc, ◌+ℤ◌, Bool, if◌then◌else◌, Option, none, some,
}
use portwatch.Alert.Notification.{Notification, Error, bulkhead_full, Dispatcher}
use portwatch.Alert.BoundedLog.{positive_or}

pub record BulkheadPolicy : Type 0 where
  pub max_concurrent : ℤ

abbrev default_bulkhead_policy : BulkheadPolicy
default_bulkhead_policy = record { max_concurrent = pos 8 }

pub record Bulkhead : Type 0 where
  pub policy : BulkheadPolicy
  pub sem : ℕ
  pub active : ℤ

unfoldable pub new_bulkhead : BulkheadPolicy → Bulkhead
new_bulkhead p = record {
  policy = record {
    max_concurrent = positive_or p.max_concurrent default_bulkhead_policy.max_concurrent;
  };
  sem = 0;
  active = pos 0;
}

-- The semaphore has room.
unfoldable pub is_free : Bulkhead → Bool
is_free b = ltb b.sem (pos_part b.policy.max_concurrent)

-- `b.sem <- struct{}{}`, and `<-b.sem` by a call that holds a slot, so that it does not block.
unfoldable pub push : Bulkhead → Bulkhead
push b = record b { sem = suc b.sem }

unfoldable pub pop : Bulkhead → Bulkhead
pop b = record b { sem = b.sem - 1 }

-- `b.active++` and `b.active--` under the mutex.
unfoldable pub count : Bulkhead → ℤ → Bulkhead
count b d = record b { active = b.active +ℤ d }

-- The calls with no other between their two steps.
pub acquire : Bulkhead → Option Error × Bulkhead
acquire b = if is_free b then (none, count (push b) (pos 1)) else (some bulkhead_full, b)

pub release : Bulkhead → Bulkhead
release b = count (pop b) (negsuc 0)

module _ {W : Type 0} (next : Dispatcher W) where
  abbrev serve : Notification → W → Option Error × Bulkhead → Option Error × (Bulkhead × W)
  serve n w (some e, b) = (some e, (b, w))
  serve n w (none, b) = let (e, w') = next n w in (e, (release b, w'))

  pub send : Dispatcher (Bulkhead × W)
  send n (b, w) = serve n w (acquire b)
