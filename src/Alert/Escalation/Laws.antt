-- ===== src/Alert/Escalation/Laws.antt =====
-- What the escalator counts.
use portwatch.Base.{
  ℕ, suc, ◌+◌, ◌≡◌, refl, ◌∙◌, ℤ, Text, text, text_eq, text_beq_iff, int_eq, eq_ℤ_iff, ◌==◌, lookup,
  lookup-insert, lookup-delete, List, [], ◌∷◌, ◌++◌, Bool, true, false, ◌&&◌, Bool-cases, inl, inr,
  if◌then◌else◌, Option, none, some, arith,
}
use portwatch.Alert.Notification.{Notification, Error, Dispatcher, Clock, send_all}
use portwatch.Alert.Key.{escalation_key, throttle_key, throttle_key_iff}
use portwatch.Alert.Escalation.{
  EscalationPolicy, EscalationState, Escalator, count_failure, record_failure, reset, count_of,
  count, escalate, unless_failed, send,
}

abbrev pub closed_key : ℤ → Text
closed_key port = text "port:" ++ throttle_key port (text "closed")

-- A failure of the port.
abbrev is_failure : ℤ → Notification → Bool
is_failure port n = (n.port == port) && (n.state == text "closed")

same_key : (port : ℤ) (n : Notification) → (escalation_key n == closed_key port) ≡ is_failure port n
same_key port n = ground (
  arith,
  text_beq_iff (escalation_key n) (closed_key port),
  throttle_key_iff n.port port n.state (text "closed"),
  text_beq_iff n.state (text "closed"),
  eq_ℤ_iff n.port port,
)

count_failure-count :
    (p : EscalationPolicy) (now : ℤ) (s : Option EscalationState)
    → (count_failure p now s).0.count ≡ suc (count_of s)
count_failure-count p now none = refl
count_failure-count p now (some s) = omega arith

and_false : (b : Bool) → b && false ≡ false
and_false true = refl
and_false false = refl

and_true : (b : Bool) → b && true ≡ b
and_true true = refl
and_true false = refl

add_if : (b : Bool) (c t : ℕ) → (if b then suc c else c) + t ≡ c + (if b then suc t else t)
add_if true c t = omega arith
add_if false c t = refl

failure_key :
    (port : ℤ) (n : Notification) → is_failure port n ≡ true → escalation_key n ≡ closed_key port
failure_key port n f = (text_beq_iff (escalation_key n) (closed_key port)).0 (same_key port n ∙ f)

closed_of :
    (port : ℤ) (n : Notification) → is_failure port n ≡ true → (n.state == text "closed") ≡ true
closed_of port n f = ground (arith, f)

count-record_failure :
    (e : Escalator) (now : ℤ) (k j : Text)
    → count (record_failure e now k).0 j ≡ (if k == j then suc (count e k) else count e j)
unfolding count record_failure
count-record_failure e now k j = elim (Bool-cases (k == j)) [
  | inl same ↦ rw (lookup-insert, same) (count_failure-count e.policy now (lookup k e.state))
  | inr other ↦ rw (lookup-insert, other) refl
]

count-reset : (e : Escalator) (k j : Text) → count (reset e k) j ≡ (if k == j then 0 else count e j)
unfolding count reset
count-reset e k j = elim (Bool-cases (k == j)) [
  | inl same ↦ rw (lookup-delete, same) refl
  | inr other ↦ rw (lookup-delete, other) refl
]

abbrev succeeded : Option Error → Bool
succeeded none = true
succeeded (some e) = false

-- The failures of the port among the notifications that got nil.
abbrev pub tally : ℤ → List Notification → List (Option Error) → ℕ
tally port [] errs = 0
tally port (n ∷ ns) [] = 0
tally port (n ∷ ns) (e ∷ errs) =
    let rest = tally port ns errs in if is_failure port n && succeeded e then suc rest else rest

module _ {W : Type 0} (clock : Clock W) (primary escalation : Dispatcher W) where
  count-escalate :
      (port : ℤ) (n : Notification) (e : Escalator) (w : W)
      → count (escalate clock primary escalation n (e, w)).1.0 (closed_key port)
        ≡ (if is_failure port n then suc (count e (closed_key port)) else count e (closed_key port))
  unfolding escalate
  count-escalate port n e w = elim (Bool-cases (is_failure port n)) [
    | inl failure ↦
        rw
          (
            failure,
            closed_of port n failure,
            count-record_failure,
            same_key,
            failure,
            failure_key port n failure,
          )
          refl
    | inr other ↦ elim (Bool-cases (n.state == text "closed")) [
      | inl closed ↦ rw (other, closed, count-record_failure, same_key, other) refl
      | inr not_closed ↦ rw (other, not_closed, count-reset, same_key, other) refl
    ]
  ]

  escalate-none :
      (n : Notification) (e : Escalator) (w : W)
      → (escalate clock primary escalation n (e, w)).0 ≡ none
  unfolding escalate
  escalate-none n e w = elim (Bool-cases (n.state == text "closed")) [
    | inl closed ↦ rw closed refl
    | inr not_closed ↦ rw not_closed refl
  ]

  count-unless_failed :
      (port : ℤ) (n : Notification) (e : Escalator) (r : Option Error × W)
      → let sent = unless_failed clock primary escalation n e r in
        count sent.1.0 (closed_key port) ≡ (
          if is_failure port n && succeeded sent.0
          then suc (count e (closed_key port))
          else count e (closed_key port))
  count-unless_failed port n e (some err, w) = rw (and_false (is_failure port n)) refl
  count-unless_failed port n e (none, w) =
      rw (escalate-none n e w, and_true (is_failure port n)) (count-escalate port n e w)

  -- After any sends, the failure count of a port is its count before plus the number of its
  -- notifications of a closed state whose primary send succeeded: no notification of another
  -- state, of that port or not, takes anything off it.
  pub count-send_all :
      (port : ℤ) (ns : List Notification) (e : Escalator) (w : W)
      → let (errs, (e', w')) = send_all (send clock primary escalation) ns (e, w) in
        count e' (closed_key port) ≡ count e (closed_key port) + tally port ns errs
  unfolding send_all send
  count-send_all port [] e w = omega arith
  count-send_all port (n ∷ ns) e w =
      let first = send clock primary escalation n (e, w) in
      rw (count-send_all port ns first.1.0 first.1.1, count-unless_failed port n e (primary n w))
        (add_if (is_failure port n && succeeded first.0) (count e (closed_key port))
          (tally port ns (send_all (send clock primary escalation) ns first.1).0))
