-- ===== src/Alert/Filter.antt =====
-- internal/alert/filter.go, filter_dispatcher.go.
pub mod Laws
use portwatch.Base.{
  ℤ, Text, text_eq, int_eq, Comparable, ◌==◌, List, [], ◌∷◌, any, Bool, true, false, not,
  if◌then◌else◌, Option, none, some,
}
use portwatch.Alert.Notification.{Notification, Dispatcher}

pub record FilterPolicy : Type 0 where
  pub ports : List ℤ
  pub states : List Text

abbrev default_filter_policy : FilterPolicy
default_filter_policy = record { ports = []; states = [] }

-- One block of `allow`: an empty list admits all, else the value is searched for.
abbrev pub admits : {A : Type 0} ⦃eq : Comparable A⦄ → List A → A → Bool
admits [] x = true
admits (y ∷ ys) x = any (λ z. z == x) (y ∷ ys)

pub allow : FilterPolicy → Notification → Bool
allow policy n = if not (admits policy.ports n.port) then false else admits policy.states n.state

pub record Filter (W : Type 0) : Type 0 where
  pub policy : FilterPolicy
  pub next : Dispatcher W

module _ {W : Type 0} where
  -- `none` is a nil argument, and a panic.
  new_filter : FilterPolicy → Option (Dispatcher W) → Option (Filter W)
  new_filter policy none = none
  new_filter policy (some next) = some (record { policy = policy; next = next })

  new_filter_dispatcher : List ℤ → List Text → Option (Dispatcher W) → Option (Filter W)
  new_filter_dispatcher ports states next =
      new_filter (record { ports = ports; states = states }) next

  pub send : Filter W → Dispatcher W
  send f n w = if not (allow f.policy n) then (none, w) else f.next n w
