-- ===== src/Alert/Digest/Laws.antt =====
-- What a digest says.
use portwatch.Base.{
  ℕ, suc, ◌+◌, ◌≡◌, refl, ap, ◌∙◌, ℤ, Text, text_eq, text_beq_iff, int_eq, ◌==◌, Map, lookup,
  insert, lookup-insert, List, [], ◌∷◌, map, keep, length, true, Bool-cases, inl, inr, Option, none,
  some, arith,
}
use portwatch.Alert.Notification.{Notification}
use portwatch.Alert.Key.{throttle_key, notification_key, is_about, same_key}
use portwatch.Alert.Digest.{
  DigestPolicy, DigestEntry, Digester, new_digester, one_more, add, digest_of, values, flush,
}

unfoldable pub add_all : Digester → List Notification → Digester
add_all d [] = d
add_all d (n ∷ ns) = add_all (add d n) ns

-- The first of the notifications, with their number.
abbrev pub summary : List Notification → Option DigestEntry
summary [] = none
summary (n ∷ ns) = some (record { notification = n; count = length (n ∷ ns) })

-- The entry after some more notifications for its key.
abbrev more : Option DigestEntry → List Notification → Option DigestEntry
more e [] = e
more e (n ∷ ns) = more (some (one_more n e)) ns

own_key :
    (port : ℤ) (state : Text) (n : Notification)
    → is_about port state n ≡ true
    → notification_key n ≡ throttle_key port state
own_key port state n mine =
    (text_beq_iff (notification_key n) (throttle_key port state)).0 (same_key port state n ∙ mine)

lookup-add_all :
    (d : Digester) (port : ℤ) (state : Text) (ns : List Notification)
    → lookup (throttle_key port state) (add_all d ns).bucket
      ≡ more (lookup (throttle_key port state) d.bucket) (keep (is_about port state) ns)
unfolding add_all add
lookup-add_all d port state [] = refl
lookup-add_all d port state (n ∷ ns) = elim (Bool-cases (is_about port state n)) [
  | inl mine ↦
      rw
        (
          lookup-add_all (add d n) port state ns,
          lookup-insert,
          same_key,
          mine,
          own_key port state n mine,
        )
        refl
  | inr other ↦ rw (lookup-add_all (add d n) port state ns, lookup-insert, same_key, other) refl
]

more-counted :
    (e : DigestEntry) (ns : List Notification)
    → more (some e) ns ≡ some (record e { count = length ns + e.count })
more-counted e [] = ap (λ c. some (record e { count = c })) (omega arith)
more-counted e (n ∷ ns) =
    more-counted (one_more n (some e)) ns ∙ ap (λ c. some (record e { count = c })) (omega arith)

more-none : (ns : List Notification) → more none ns ≡ summary ns
more-none [] = refl
more-none (n ∷ ns) =
    more-counted (one_more n none) ns
    ∙ ap (λ c. some (record { notification = n; count = c })) (omega arith)

-- The notifications that the entries count.
abbrev pub total : List DigestEntry → ℕ
total [] = 0
total (e ∷ es) = e.count + total es

total-insert :
    (k : Text) (n : Notification) (m : Map Text DigestEntry)
    → total (values (insert k (one_more n (lookup k m)) m)) ≡ suc (total (values m))
unfolding insert lookup
total-insert k n [] = refl
total-insert k n ((key, e) ∷ m) = elim (Bool-cases (key == k)) [
  | inl mine ↦ ground (arith, mine)
  | inr other ↦ ground (arith, other, total-insert k n m)
]

total-add_all :
    (d : Digester) (ns : List Notification)
    → total (values (add_all d ns).bucket) ≡ length ns + total (values d.bucket)
unfolding add_all add
total-add_all d [] = omega arith
total-add_all d (n ∷ ns) =
    ground (arith, total-add_all (add d n) ns, total-insert (notification_key n) n d.bucket)

policy-add_all : (d : Digester) (ns : List Notification) → (add_all d ns).policy ≡ d.policy
unfolding add_all add
policy-add_all d [] = refl
policy-add_all d (n ∷ ns) = policy-add_all (add d n) ns

-- When a digest of the notifications added since the last one is flushed: for each port and state
-- there is the entry with the first of the notifications about them and with their number, and no
-- entry if there are none; the numbers add up to that of all the notifications, so none is in two
-- entries; what is sent are the texts of these entries, and the digester starts anew.
flush-add_all :
    (p : DigestPolicy) (ns : List Notification) (port : ℤ) (state : Text)
    → let d = add_all (new_digester p) ns in
      (lookup (throttle_key port state) d.bucket ≡ summary (keep (is_about port state) ns))
      × (total (values d.bucket) ≡ length ns)
      × (flush d ≡ (new_digester p, map digest_of (values d.bucket)))
unfolding new_digester flush lookup
flush-add_all p ns port state = (
  lookup-add_all (new_digester p) port state ns ∙ more-none (keep (is_about port state) ns),
  total-add_all (new_digester p) ns ∙ omega arith,
  rw (policy-add_all (new_digester p) ns) refl,
)
