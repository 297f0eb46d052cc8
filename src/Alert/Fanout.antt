-- ===== src/Alert/Fanout.antt =====
-- internal/alert/fanout.go. What each target returns is an argument; the goroutines end in any order.
-- The text that joins the errors is the list of them.
pub mod Laws
use portwatch.Base.{ℕ, suc, List, [], ◌∷◌, ◌++◌, Option, none, some}
use portwatch.Alert.Notification.{Error}

-- A target: `none` if it is nil, else what its `Send` returns.
abbrev pub Target : Type 0
Target = Option (Option Error)

-- `NewFanoutDispatcher`; `none` is a panic.
new_fanout : List Target → Option (List Target)
new_fanout [] = none
new_fanout (t ∷ ts) = some (t ∷ ts)

abbrev pub outcome : Target → Option Error
outcome none = none
outcome (some err) = err

-- The first loop of `Send`: what is put into the channel, with the index of the target.
unfoldable pub launch : ℕ → List Target → List (ℕ × Option Error)
launch i [] = []
launch i (t ∷ ts) = (i, outcome t) ∷ launch (suc i) ts

-- What one result adds to the errors.
abbrev pub reported : ℕ × Option Error → List (ℕ × Error)
reported (i, none) = []
reported (i, some e) = (i, e) ∷ []

-- The second loop, over what is received: the errors, each with the index of its target.
unfoldable pub collect : List (ℕ × Option Error) → List (ℕ × Error)
collect [] = []
collect (x ∷ rest) = reported x ++ collect rest

abbrev combined : List (ℕ × Error) → Option (List (ℕ × Error))
combined [] = none
combined (e ∷ errs) = some (e ∷ errs)

unfoldable pub send : List (ℕ × Option Error) → Option (List (ℕ × Error))
send received = combined (collect received)
