-- ===== src/Alert/Sampling.antt =====
-- internal/alert/sampling.go. The 64-bit floats, their order and the random numbers are arguments.
pub mod Laws
use portwatch.Base.{Bool, true, false, if◌then◌else◌, Option, none, some}
use portwatch.Alert.Notification.{Notification, Error, Dispatcher}

-- `F` stands for `float64`; `less` is `<`, and `at_most` is `<=`.
pub record Floats (F : Type 0) : Type 0 where
  pub zero : F
  pub one : F
  pub less : F → F → Bool
  pub at_most : F → F → Bool

pub record Sampler (F : Type 0) : Type 0 where
  pub rate : F

module _ {F : Type 0} (floats : Floats F) where
  default_rate : F
  default_rate = floats.one

  abbrev clamp : F → F
  clamp rate =
      let low = if floats.less rate floats.zero then floats.zero else rate in
      if floats.less floats.one low then floats.one else low

  -- `NewSampler` of a policy with this rate.
  unfoldable pub new_sampler : F → Sampler F
  new_sampler rate = record { rate = clamp rate }

  -- `draw` is `rng.Float64`.
  module _ {W : Type 0} (draw : W → F × W) where
    unfoldable pub allow : Sampler F → W → Bool × W
    allow s w =
        let (v, w') = draw w in
        if floats.at_most floats.one s.rate
        then (true, w)
        else if floats.at_most s.rate floats.zero
        then (false, w)
        else (floats.less v s.rate, w')

    abbrev forward : Dispatcher W → Notification → Bool × W → Option Error × W
    forward next n (true, w) = next n w
    forward next n (false, w) = (none, w)

    -- `(*SampleDispatcher).Send`
    unfoldable pub send : Sampler F → Dispatcher W → Dispatcher W
    send s next n w = forward next n (allow s w)

    -- `NewSampleDispatcher`; `none` is a nil argument, and a panic.
    new_sample_dispatcher : Option (Sampler F) → Option (Dispatcher W) → Option (Dispatcher W)
    new_sample_dispatcher none next = none
    new_sample_dispatcher (some s) none = none
    new_sample_dispatcher (some s) (some next) = some (send s next)
