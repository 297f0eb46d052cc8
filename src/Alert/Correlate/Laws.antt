-- ===== src/Alert/Correlate/Laws.antt =====
-- When a correlator forwards.
use portwatch.Base.{
  ℕ, ◌+◌, ◌≡◌, refl, ◌∙◌, ℤ, pos, eq_ℤ, ltb_ℤ, time_sub, Text, text_eq, ◌==◌, lookup, List, [], ◌∷◌,
  Bool, false, Bool-cases, inl, inr, if◌then◌else◌, Option, none, some,
}
use portwatch.Alert.Notification.{Notification}
use portwatch.Alert.Key.{notification_key}
use portwatch.Alert.PerKey.{answers, inputs_for, answers_for, answers_for_lem}
use portwatch.Alert.Correlate.{
  CorrelatePolicy, CorrelateEntry, Correlator, new_correlator, count_event, first_entry,
  record_notification,
}

-- The answers to the calls of `Record` for one key, among calls for any.
pub correlated : Text → Correlator → List (ℤ × Notification) → List Bool
correlated k c [] = []
correlated k c (x ∷ calls) =
    let (c', reached) = record_notification c x.0 x.1 in
    let rest = correlated k c' calls in if notification_key x.1 == k then reached ∷ rest else rest

-- The times of the calls for one key.
abbrev pub times_for : Text → List (ℤ × Notification) → List ℤ
times_for k [] = []
times_for k (x ∷ calls) =
    let rest = times_for k calls in if notification_key x.1 == k then x.0 ∷ rest else rest

abbrev step :
    CorrelatePolicy → Option CorrelateEntry → ℤ × Notification → Option CorrelateEntry × Bool
step p e i = (some (count_event p i.0 i.1 e).0, (count_event p i.0 i.1 e).1)

abbrev keyed : List (ℤ × Notification) → List (Text × (ℤ × Notification))
keyed [] = []
keyed (x ∷ calls) = (notification_key x.1, x) ∷ keyed calls

correlated_lem :
    (k : Text) (c : Correlator) (calls : List (ℤ × Notification))
    → correlated k c calls ≡ answers_for (step c.policy) k c.entries (keyed calls)
unfolding correlated answers_for record_notification
correlated_lem k c [] = refl
correlated_lem k c (x ∷ calls) = rw (correlated_lem k (record_notification c x.0 x.1).0 calls) refl

-- Whether each of the next events is the one that the policy waits for, `k` having been counted.
abbrev marks : ℤ → ℕ → List ℤ → List Bool
marks least k [] = []
marks least k (t ∷ ts) = eq_ℤ (pos (k + 1)) least ∷ marks least (k + 1) ts

-- The reference: a first event opens a window and answers no; so does each event that comes after
-- the window; the others in it answer yes if they are the one that the policy waits for.
unfoldable pub windows : CorrelatePolicy → Option (ℕ × ℤ) → List ℤ → List Bool
windows p none [] = []
windows p (some s) [] = []
windows p none (t ∷ ts) = false ∷ windows p (some (1, t)) ts
windows p (some (k, first)) (t ∷ ts) =
    let again = false ∷ windows p (some (1, t)) ts in
    let more = eq_ℤ (pos (k + 1)) p.min_events ∷ windows p (some (k + 1, first)) ts in
    if ltb_ℤ p.window_duration (time_sub t first) then again else more

abbrev seen : Option CorrelateEntry → Option (ℕ × ℤ)
seen none = none
seen (some e) = some (e.count, e.first_seen)

answers-windows :
    (p : CorrelatePolicy) (e : Option CorrelateEntry) (k : Text) (calls : List (ℤ × Notification))
    → answers (step p) e (inputs_for k (keyed calls)) ≡ windows p (seen e) (times_for k calls)
unfolding answers windows
answers-windows p none k [] = refl
answers-windows p (some e) k [] = refl
answers-windows p none k (x ∷ calls) = elim (Bool-cases (notification_key x.1 == k)) [
  | inl mine ↦ rw (mine, answers-windows p (some (first_entry x.0 x.1)) k calls) refl
  | inr other ↦ rw (other, answers-windows p none k calls) refl
]
answers-windows p (some e) k (x ∷ calls) = elim (Bool-cases (notification_key x.1 == k)) [
  | inl mine ↦ elim (Bool-cases (ltb_ℤ p.window_duration (time_sub x.0 e.first_seen))) [
    | inl late ↦ rw (mine, late, answers-windows p (some (first_entry x.0 x.1)) k calls) refl
    | inr early ↦
        rw
          (
            mine,
            early,
            answers-windows p (some (record e { count = e.count + 1; last_notif = x.1 })) k calls,
          )
          refl
  ]
  | inr other ↦ rw (other, answers-windows p (some e) k calls) refl
]

-- The answers of `Record` for a key, among calls for any keys, depend only on the times of the
-- calls for that key: the first, and each that comes more than a window after the event that
-- opened the last window, is answered no and opens a window; any other is answered yes exactly
-- if it makes the count of its window equal to the number of events that the policy asks for.
pub correlated-new_correlator :
    (p : CorrelatePolicy) (k : Text) (calls : List (ℤ × Notification))
    → correlated k (new_correlator p) calls ≡ windows p none (times_for k calls)
unfolding new_correlator lookup
correlated-new_correlator p k calls =
    correlated_lem k (new_correlator p) calls
    ∙ answers_for_lem (step p) k [] (keyed calls)
    ∙ answers-windows p none k calls
