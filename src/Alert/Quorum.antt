-- ===== src/Alert/Quorum.antt =====
-- internal/alert/quorum.go. The results come in the order in which the targets end.
pub mod Laws
use portwatch.Base.{
  ℕ, zero, suc, ◌+◌, ◌/◌, ℤ, pos, ◌-ℤ◌, ltb_ℤ, leb_ℤ, List, [], ◌∷◌, length, Bool, ◌||◌,
  if◌then◌else◌, Option, none, some,
}
use portwatch.Alert.Notification.{
  Notification, Error, quorum_failed, bad_total, bad_required, Dispatcher,
}

pub record QuorumPolicy : Type 0 where
  pub total : ℤ
  pub required : ℤ

-- `DefaultQuorumPolicy` of a number that is not negative.
default_quorum_policy : ℕ → QuorumPolicy
default_quorum_policy total = record { total = pos total; required = pos (total / 2 + 1) }

-- `Validate`
unfoldable pub validate : QuorumPolicy → Option Error
validate p =
    if leb_ℤ p.total (pos 0)
    then some (bad_total p.total)
    else if leb_ℤ p.required (pos 0) || ltb_ℤ p.total p.required
    then some (bad_required p.total p.required)
    else none

abbrev unless_bad : {A : Type 0} → Option Error → A → Option A
unless_bad none a = some a
unless_bad (some e) a = none

-- The policy that `NewQuorumDispatcher` keeps for this number of targets; `none` is a panic.
unfoldable pub new_quorum_policy : QuorumPolicy → ℕ → Option QuorumPolicy
new_quorum_policy policy zero = none
new_quorum_policy policy (suc k) =
    let p : QuorumPolicy = record policy { total = pos (suc k) } in unless_bad (validate p) p

-- The loop over the results.
pub collect : QuorumPolicy → ℕ → ℕ → List (Option Error) → Option Error
collect p successes failures [] = some (quorum_failed successes p.required)
collect p successes failures (none ∷ rest) =
    let more = collect p (successes + 1) failures rest in
    if leb_ℤ p.required (pos (successes + 1)) then none else more
collect p successes failures (some e ∷ rest) =
    let more = collect p successes (failures + 1) rest in
    if ltb_ℤ (p.total -ℤ p.required) (pos (failures + 1))
    then some (quorum_failed successes p.required)
    else more

-- `Send`, given the results in the order in which they come.
pub send : QuorumPolicy → List (Option Error) → Option Error
send p results = collect p 0 0 results
