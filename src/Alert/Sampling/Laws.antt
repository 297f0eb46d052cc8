-- ===== src/Alert/Sampling/Laws.antt =====
-- Rates at the ends of the range and beyond.
use portwatch.Base.{◌≡◌, ◌⊎◌, inl, inr, refl, Bool-cases, true, false, none}
use portwatch.Alert.Notification.{Notification, Dispatcher}
use portwatch.Alert.Sampling.{Floats, new_sampler, allow, send}

-- The order of zero and one, and of everything with itself.
pub record IsOrdered {F : Type 0} (floats : Floats F) : Type 0 where
  zero_least : floats.at_most floats.zero floats.zero ≡ true
  one_most : floats.at_most floats.one floats.one ≡ true
  pub apart : floats.at_most floats.one floats.zero ≡ false
  apart_less : floats.less floats.one floats.zero ≡ false

module _ {F : Type 0} (floats : Floats F) (o : IsOrdered floats) where
  module _ {W : Type 0} (draw : W → F × W) (next : Dispatcher W) where
    -- A rate below zero drops every notification and one above one forwards every notification, both
    -- without drawing a random number; every other rate is kept as it is.
    pub send-new_sampler :
        (rate : F) (n : Notification) (w : W)
        → let s = new_sampler floats rate in
          let sent = send floats draw s next n w in
          ((floats.less rate floats.zero ≡ true) × (sent ≡ (none, w)))
          ⊎ ((floats.less floats.one rate ≡ true) × (sent ≡ next n w))
          ⊎ ((floats.less rate floats.zero ≡ false)
              × (floats.less floats.one rate ≡ false)
              × (s.rate ≡ rate))
    unfolding new_sampler allow send
    send-new_sampler rate n w = elim (Bool-cases (floats.less rate floats.zero)) [
      | inl low ↦ inl (low, rw (low, o.apart_less, o.apart, o.zero_least) refl)
      | inr not_low ↦ elim (Bool-cases (floats.less floats.one rate)) [
        | inl high ↦ inr (inl (high, rw (not_low, high, o.one_most) refl))
        | inr not_high ↦ inr (inr (not_low, not_high, rw (not_low, not_high) refl))
      ]
    ]
