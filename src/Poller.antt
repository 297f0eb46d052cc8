-- ===== src/Poller.antt =====
-- internal/poller/poller.go. What the dial returns is an argument; the polls of `PollAll` end in any
-- order.
pub mod Order
use portwatch.Base.{
  ℕ, zero, suc, ◌+◌, ℤ, pos, leb_ℤ, List, [], ◌∷◌, length, set, replicate, Text, text, Option, none,
  some, if◌then◌else◌,
}

pub data State : Type 0 where
  state_closed : State
  state_open : State

pub name_of : State → Text
name_of state_open = text "open"
name_of state_closed = text "closed"

-- `E` stands for the errors of package net.
pub record Result (E : Type 0) : Type 0 where
  pub host : Text
  pub port : ℤ
  pub state : State
  pub failure : Option E

pub record Poller : Type 0 where
  pub timeout : ℤ

new_poller : ℤ → Poller
new_poller timeout = record {
  timeout = if leb_ℤ timeout (pos 0) then pos 2_000_000_000 else timeout;
}

pub record Target : Type 0 where
  pub host : Text
  pub port : ℤ

module _ {E : Type 0} where
  -- `Poll`, whose dial returned this error or none.
  unfoldable pub poll : Target → Option E → Result E
  poll t (some e) = record { host = t.host; port = t.port; state = state_closed; failure = some e }
  poll t none = record { host = t.host; port = t.port; state = state_open; failure = none }

  -- The goroutines of `PollAll`: what they send, each with its index.
  unfoldable pub launch : ℕ → List (Target × Option E) → List (ℕ × Result E)
  launch i [] = []
  launch i (x ∷ rest) = (i, poll x.0 x.1) ∷ launch (suc i) rest

  abbrev pub zero_result : Result E
  zero_result = record { host = []; port = pos 0; state = state_closed; failure = none }

  -- Its second loop, over what it receives.
  pub gather : List (Result E) → List (ℕ × Result E) → List (Result E)
  gather results [] = results
  gather results (x ∷ rest) = gather (set results x.0 x.1) rest

  pub poll_all : List (Target × Option E) → List (ℕ × Result E) → List (Result E)
  poll_all targets received = gather (replicate (length targets) zero_result) received
