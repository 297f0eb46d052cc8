-- ===== src/Alert/Notification.antt =====
-- internal/alert/notify.go and channel.go: what is sent, what a send may report, and the shape of
-- everything that sends. A context is passed on and not modelled, but where its end is waited for.
use portwatch.Base.{ℕ, ℤ, Text, Option, none, some, List, [], ◌∷◌}

pub record Notification : Type 0 where
  pub port : ℤ
  pub state : Text
  pub timestamp : ℤ
  pub message : Text

-- The errors of the package, one constructor for each message. `failed` is what code outside it
-- reports.
pub data Error : Type 0 where
  failed : ℕ → Error
  suppressed : Text → Error
  bad_status : ℤ → Error
  circuit_open : ℤ → Error
  burst_limit : ℤ → Text → Error
  window_limit : Text → Error
  priority_out_of_range : ℤ → Error
  queue_full : ℤ → Error
  bulkhead_full : Error
  load_shed : Error
  quorum_failed : ℕ → ℤ → Error
  not_replayed : ℕ → Error
  nil_stage : ℕ → Error
  nil_route : Text → Error
  bad_total : ℤ → Error
  bad_required : ℤ → ℤ → Error
  enriching : Error → Error
  empty_path : Error
  rate_limited : Text → ℤ → Error
  timed_out : ℤ → Error → Error
  marshalling building posting : Error → Error
  non_2xx : ℤ → Error

-- `Send(ctx, n) error` over the state `W` of all that it can touch; `none` is a nil error.
abbrev pub Dispatcher : Type 0 → Type 0
Dispatcher W = Notification → W → Option Error × W

-- A reading of the clock, which may advance it.
abbrev pub Clock : Type 0 → Type 0
Clock W = W → ℤ × W

-- Sends in order, each made whatever the earlier ones returned.
module _ {W : Type 0} (next : Dispatcher W) where
  unfoldable pub send_all : List Notification → W → List (Option Error) × W
  send_all [] w = ([], w)
  send_all (n ∷ ns) w = let (e, w') = next n w in let (es, w'') = send_all ns w' in (e ∷ es, w'')

-- A constructor that takes what it wraps and a component, and panics, which is `none`, if either is
-- nil: the dispatcher that it builds, with the state from which it starts.
abbrev pub wrap :
    {W S : Type 0}
    → (Dispatcher W → Dispatcher (S × W))
    → Option (Dispatcher W)
    → Option S
    → Option (Dispatcher (S × W) × S)
wrap over none s = none
wrap over (some next) none = none
wrap over (some next) (some s) = some (over next, s)
