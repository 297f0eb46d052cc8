-- ===== src/Alert/Filter/Laws.antt =====
-- Which notifications pass a filter, and what reaches its downstream.
use portwatch.Base.{
  text_eq, int_eq, Comparable, ◌==◌, ◌≡◌, ◌⊎◌, inl, inr, ◌↔◌, refl, List, [], ◌∷◌, any, keep,
  get_or, drop, Bool, true, Bool-cases, if◌then◌else◌, Option, none, arith,
}
use portwatch.Alert.Notification.{Notification, Error, send_all}
use portwatch.Alert.Filter.{FilterPolicy, Filter, admits, allow, send}

-- The value is one of those listed.
abbrev Listed : {A : Type 0} → List A → A → Type 0
Listed [] x = ⊥
Listed (y ∷ ys) x = (y ≡ x) ⊎ Listed ys x

abbrev IsAllowed : {A : Type 0} → List A → A → Type 0
IsAllowed xs x = (xs ≡ []) ⊎ Listed xs x

module _ {A : Type 0} ⦃c : Comparable A⦄ where
  any-Listed : (xs : List A) (x : A) → (any (λ z. z == x) xs ≡ true) ↔ Listed xs x
  any-Listed [] x = ground arith
  any-Listed (y ∷ ys) x = ground (arith, c.same_iff y x, any-Listed ys x)

  admits_iff : (xs : List A) (x : A) → (admits xs x ≡ true) ↔ IsAllowed xs x
  admits_iff [] x = ground arith
  admits_iff (y ∷ ys) x = ground (arith, any-Listed (y ∷ ys) x)

allow_iff :
    (policy : FilterPolicy) (n : Notification)
    → (allow policy n ≡ true) ↔ (IsAllowed policy.ports n.port × IsAllowed policy.states n.state)
unfolding allow
allow_iff policy n =
    ground (arith, admits_iff policy.ports n.port, admits_iff policy.states n.state)

-- The answers to the notifications that pass, in the places of those, and nil for the others.
abbrev spread :
    (Notification → Bool) → List Notification → List (Option Error) → List (Option Error)
spread p [] errs = []
spread p (n ∷ ns) errs =
    let passed = get_or errs 0 none ∷ spread p ns (drop 1 errs) in
    let held = none ∷ spread p ns errs in if p n then passed else held

module _ {W : Type 0} (f : Filter W) where
  send_all-keep :
      (ns : List Notification) (w : W)
      → let sent = send_all f.next (keep (allow f.policy) ns) w in
        send_all (send f) ns w ≡ (spread (allow f.policy) ns sent.0, sent.1)
  unfolding send_all send
  send_all-keep [] w = refl
  send_all-keep (n ∷ ns) w = elim (Bool-cases (allow f.policy n)) [
    | inl pass ↦ rw (pass, send_all-keep ns (f.next n w).1)
    | inr hold ↦ rw (hold, send_all-keep ns w)
  ]

  -- A filter lets a notification pass exactly if its port is among the ports listed or none is
  -- listed, and its state is among the states listed or none is listed. Of the notifications sent
  -- through it the downstream gets those that pass, in order, and no other; their callers get its
  -- answers, and the others get nil.
  send_all-filter :
      (n : Notification) (ns : List Notification) (w : W)
      → let p = f.policy in
        let sent = send_all f.next (keep (allow p) ns) w in
        ((allow p n ≡ true) ↔ (IsAllowed p.ports n.port × IsAllowed p.states n.state))
        × (send_all (send f) ns w ≡ (spread (allow p) ns sent.0, sent.1))
  send_all-filter n ns w = (allow_iff f.policy n, send_all-keep ns w)
