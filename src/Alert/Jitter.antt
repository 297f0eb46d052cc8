-- ===== src/Alert/Jitter.antt =====
-- internal/alert/jitter.go. The random numbers and the select that waits are arguments.
use portwatch.Base.{◌*◌, ◌≡◌, ℤ, pos, ◌≤ℤ◌, ◌<ℤ◌, leb_ℤ, if◌then◌else◌, Option, none, some, arith}
use portwatch.Alert.Notification.{Notification, Error, Dispatcher}

pub record JitterPolicy : Type 0 where
  max_jitter : ℤ

default_jitter_policy : JitterPolicy
default_jitter_policy = record { max_jitter = pos (500 * 1000000) }

-- The policy that `NewJitterDispatcher` keeps.
unfoldable new_jitter_policy : JitterPolicy → JitterPolicy
unfolding default_jitter_policy
new_jitter_policy p = record {
  max_jitter =
      if leb_ℤ p.max_jitter (pos 0) then default_jitter_policy.max_jitter else p.max_jitter;
}

-- `rng.Int63n` panics, which is `none`, if its argument is not positive.
abbrev pub draw : {W : Type 0} → (ℤ → W → ℤ × W) → ℤ → W → Option (ℤ × W)
draw int63n n w = if leb_ℤ n (pos 0) then none else some (int63n n w)

-- The select: it has woken on the end of the context, or on that of the delay.
abbrev after_wait : {W : Type 0} → Dispatcher W → Notification → Option Error × W → Option Error × W
after_wait next n (some e, w) = (some e, w)
after_wait next n (none, w) = next n w

module _ {W : Type 0} (wait : ℤ → W → Option Error × W) (next : Dispatcher W) where
  abbrev after_draw : Notification → Option (ℤ × W) → Option (Option Error × W)
  after_draw n none = none
  after_draw n (some (delay, w)) = some (after_wait next n (wait delay w))

  -- `Send`; `wait` returns the context's error if the context ends before the delay is over.
  unfoldable pub send :
      (ℤ → W → ℤ × W) → JitterPolicy → Notification → W → Option (Option Error × W)
  send int63n p n w = after_draw n (draw int63n p.max_jitter w)

-- With random numbers that keep to their bound, a send never panics, and it forwards once the wait for
-- a delay of at least zero and less than the longest jitter is over, or reports the error of the
-- context that ended before.
send-delay :
    {W : Type 0} (int63n : ℤ → W → ℤ × W) (wait : ℤ → W → Option Error × W) (next : Dispatcher W)
    (policy : JitterPolicy) (n : Notification) (w : W)
    → ((bound : ℤ) (v : W)
        → pos 0 <ℤ bound
        → (pos 0 ≤ℤ (int63n bound v).0) × ((int63n bound v).0 <ℤ bound))
    → let p = new_jitter_policy policy in
      (delay : ℤ) × (w' : W) × (pos 0 ≤ℤ delay)
      × (delay <ℤ p.max_jitter)
      × (send wait next int63n p n w ≡ some (after_wait next n (wait delay w')))
unfolding new_jitter_policy send
send-delay int63n wait next policy n w h =
    let p = new_jitter_policy policy in
    let inside = h p.max_jitter w (ground arith) in
    ((int63n p.max_jitter w).0, (int63n p.max_jitter w).1, inside.0, inside.1, ground arith)
