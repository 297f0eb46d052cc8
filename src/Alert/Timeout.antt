-- ===== src/Alert/Timeout.antt =====
-- internal/alert/timeout.go. The select between the result and the deadline is an argument.
use portwatch.Base.{◌*◌, ◌≡◌, ◌↔◌, ℤ, pos, ◌<ℤ◌, leb_ℤ, if◌then◌else◌, Option, none, some, arith}
use portwatch.Alert.Notification.{Error, timed_out}

pub record TimeoutPolicy : Type 0 where
  per_dispatch : ℤ

default_timeout_policy : TimeoutPolicy
default_timeout_policy = record { per_dispatch = pos (5 * 1000000000) }

-- The policy that `NewTimeoutDispatcher` keeps.
unfoldable pub new_timeout_policy : TimeoutPolicy → TimeoutPolicy
unfolding default_timeout_policy
new_timeout_policy p = record {
  per_dispatch =
      if leb_ℤ p.per_dispatch (pos 0) then default_timeout_policy.per_dispatch else p.per_dispatch;
}

-- What the select wakes on: the result of the send, or the end of the context that has the deadline.
pub data Wake : Type 0 where
  finished : Option Error → Wake
  ctx_done : Error → Wake

-- `Send` once its select has woken.
unfoldable pub send : TimeoutPolicy → Wake → Option Error
send p (finished e) = e
send p (ctx_done e) = some (timed_out p.per_dispatch e)

-- A dispatcher always has a deadline that lies ahead, and what it reports is nil exactly if the send
-- has ended before and reported nil.
pub send-none_iff :
    (policy : TimeoutPolicy) (wake : Wake)
    → (pos 0 <ℤ (new_timeout_policy policy).per_dispatch)
      × ((send (new_timeout_policy policy) wake ≡ none) ↔ (wake ≡ finished none))
unfolding new_timeout_policy send
send-none_iff policy (finished none) = (ground arith, ground arith)
send-none_iff policy (finished (some e)) = (ground arith, ground arith)
send-none_iff policy (ctx_done e) = (ground arith, ground arith)
