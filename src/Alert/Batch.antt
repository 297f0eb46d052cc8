-- ===== src/Alert/Batch.antt =====
-- internal/alert/batch.go. A batch is handed to the callback in a goroutine: here it is a result.
pub mod Laws
use portwatch.Base.{
  ℕ, ℤ, pos, leb_ℤ, List, [], ◌∷◌, ◌++◌, length, Bool, true, false, if◌then◌else◌, Option, none,
  some,
}
use portwatch.Alert.Notification.{Notification}
use portwatch.Alert.BoundedLog.{positive_or}

pub record BatchPolicy : Type 0 where
  pub max_size : ℤ
  pub flush_interval : ℤ

abbrev default_batch_policy : BatchPolicy
default_batch_policy = record { max_size = pos 10; flush_interval = pos 30_000_000_000 }

pub record Batcher : Type 0 where
  pub policy : BatchPolicy
  pub buf : List Notification

pub new_batcher : BatchPolicy → Batcher
new_batcher policy = record {
  policy = record {
    max_size = positive_or policy.max_size default_batch_policy.max_size;
    flush_interval = positive_or policy.flush_interval default_batch_policy.flush_interval;
  };
  buf = [];
}

abbrev pub snap : List Notification → List (List Notification)
snap [] = []
snap (n ∷ ns) = (n ∷ ns) ∷ []

-- `flush`, with the batch that it hands over if there is one.
unfoldable pub flush : Batcher → Batcher × List (List Notification)
flush b = (record b { buf = [] }, snap b.buf)

unfoldable pub add : Batcher → Notification → Batcher × List (List Notification)
add b n =
    let b' : Batcher = record b { buf = b.buf ++ (n ∷ []) } in
    if leb_ℤ b.policy.max_size (pos (length b'.buf)) then flush b' else (b', [])

-- What happens to a batcher: a call of `Add`, or what the select of `Run` wakes on.
pub data Event : Type 0 where
  adding : Notification → Event
  ticked ctx_done : Event

-- One event, with whether `Run` still waits; when it does not, its ticks and its context are not
-- heard any more.
unfoldable pub step : Batcher → Bool → Event → Batcher × Bool × List (List Notification)
step b waits (adding n) = let (b', out) = add b n in (b', waits, out)
step b true ticked = let (b', out) = flush b in (b', true, out)
step b true ctx_done = let (b', out) = flush b in (b', false, out)
step b false ticked = (b, false, [])
step b false ctx_done = (b, false, [])
