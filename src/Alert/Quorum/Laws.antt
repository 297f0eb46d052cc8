-- ===== src/Alert/Quorum/Laws.antt =====
-- The answer of a quorum send does not depend on the order in which the targets end.
use portwatch.Base.{
  ℕ, zero, suc, ◌+◌, ◌≡◌, ◌↔◌, refl, pos, ◌-ℤ◌, -ℤ_parts, ◌≤ℤ◌, ◌<ℤ◌, List, [], ◌∷◌, length, Option,
  none, some, arith,
}
use portwatch.Alert.Notification.{Error}
use portwatch.Alert.Quorum.{QuorumPolicy, validate, new_quorum_policy, collect, send}

-- How many targets returned nil, and how many did not.
abbrev pub accepted : List (Option Error) → ℕ
accepted [] = 0
accepted (none ∷ rest) = suc (accepted rest)
accepted (some e ∷ rest) = accepted rest

abbrev pub refused : List (Option Error) → ℕ
refused [] = 0
refused (none ∷ rest) = refused rest
refused (some e ∷ rest) = suc (refused rest)

length_split : (results : List (Option Error)) → accepted results + refused results ≡ length results
length_split [] = refl
length_split (none ∷ rest) = ground (arith, length_split rest)
length_split (some e ∷ rest) = ground (arith, length_split rest)

collect_iff :
    (p : QuorumPolicy) (s f : ℕ) (results : List (Option Error))
    → pos s <ℤ p.required
    → pos f ≤ℤ (p.total -ℤ p.required)
    → p.total ≡ pos (s + f + length results)
    → (collect p s f results ≡ none) ↔ (p.required ≤ℤ pos (s + accepted results))
unfolding collect
collect_iff p s f [] a b c = ground arith
collect_iff p s f (none ∷ rest) a b c =
    ground (arith, collect_iff p (s + 1) f rest, -ℤ_parts p.total p.required, length_split rest)
collect_iff p s f (some e ∷ rest) a b c =
    ground (arith, collect_iff p s (f + 1) rest, -ℤ_parts p.total p.required, length_split rest)

-- What the constructor has checked.
record IsSound (policy p : QuorumPolicy) (n : ℕ) : Type 0 where
  required : p.required ≡ policy.required
  total : p.total ≡ pos n
  above : pos 0 <ℤ p.required
  below : p.required ≤ℤ p.total

new_quorum_policy-IsSound :
    (policy p : QuorumPolicy) (n : ℕ) → new_quorum_policy policy n ≡ some p → IsSound policy p n
unfolding new_quorum_policy validate
new_quorum_policy-IsSound policy p zero e = ground arith
new_quorum_policy-IsSound policy p (suc n) e = ground arith

-- A quorum of a policy that the constructor accepts returns nil exactly if at least as many of its
-- targets return nil as the policy requires, in whatever order the results come.
pub send_iff :
    (policy p : QuorumPolicy) (results : List (Option Error))
    → new_quorum_policy policy (length results) ≡ some p
    → (send p results ≡ none) ↔ (policy.required ≤ℤ pos (accepted results))
unfolding send
send_iff policy p results e =
    let s = new_quorum_policy-IsSound policy p (length results) e in
    ground (
      arith,
      s.required,
      s.total,
      s.above,
      s.below,
      -ℤ_parts p.total p.required,
      collect_iff p 0 0 results,
    )
