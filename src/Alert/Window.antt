-- ===== src/Alert/Window.antt =====
-- internal/alert/window.go and window_dispatcher.go. `now` is the reading of the clock.
pub mod Laws
pub mod Counting
use portwatch.Base.{
  ℕ, suc, ◌+◌, ℤ, pos, ◌-ℤ◌, ltb_ℤ, leb_ℤ, Text, text_eq, List, [], ◌∷◌, ◌++◌, Map, lookup_or,
  insert, delete, Bool, true, false, if◌then◌else◌, Option, none, some, keep, length, any,
}
use portwatch.Alert.Notification.{Notification, Error, window_limit, Clock, Dispatcher, wrap}
use portwatch.Alert.Key.{notification_key}
use portwatch.Alert.Sliding.{after}

pub record WindowPolicy : Type 0 where
  pub size : ℤ
  pub max_events : ℤ

abbrev default_window_policy : WindowPolicy
default_window_policy = record { size = pos 60_000_000_000; max_events = pos 10 }

pub record WindowCounter : Type 0 where
  pub policy : WindowPolicy
  pub timestamps : Map Text (List ℤ)

abbrev or_default : ℤ → ℤ → ℤ
or_default x d = if leb_ℤ x (pos 0) then d else x

unfoldable pub new_window_counter : WindowPolicy → WindowCounter
new_window_counter p = record {
  policy = record {
    size = or_default p.size default_window_policy.size;
    max_events = or_default p.max_events default_window_policy.max_events;
  };
  timestamps = [];
}

pub allow : WindowCounter → ℤ → Text → WindowCounter × Bool
allow c now key =
    let cutoff = now -ℤ c.policy.size in
    let pruned = keep (after cutoff) (lookup_or key [] c.timestamps) in
    if leb_ℤ c.policy.max_events (pos (length pruned))
    then (record c { timestamps = insert key pruned c.timestamps }, false)
    else (record c { timestamps = insert key (pruned ++ now ∷ []) c.timestamps }, true)

pub reset : WindowCounter → Text → WindowCounter
reset c key = record c { timestamps = delete key c.timestamps }

-- `for _, t := range …; if t.After(cutoff) { count++ }`
pub count_after : ℤ → List ℤ → ℕ → ℕ
count_after cutoff [] n = n
count_after cutoff (t ∷ times) n = count_after cutoff times (if after cutoff t then n + 1 else n)

pub count : WindowCounter → ℤ → Text → ℕ
unfolding count_after
count c now key = count_after (now -ℤ c.policy.size) (lookup_or key [] c.timestamps) 0

-- The loop of `Keys`, over the entries in the order in which the map gives them.
pub keys_after : ℤ → Map Text (List ℤ) → List Text
keys_after cutoff [] = []
keys_after cutoff ((key, times) ∷ m) =
    if any (after cutoff) times then key ∷ keys_after cutoff m else keys_after cutoff m

pub keys : WindowCounter → ℤ → List Text
unfolding keys_after
keys c now = keys_after (now -ℤ c.policy.size) c.timestamps

-- `(*WindowDispatcher).Send`
module _ {W : Type 0} (clock : Clock W) (next : Dispatcher W) where
  pub send : Dispatcher (WindowCounter × W)
  send n (c, w) =
      let (now, w') = clock w in
      let (c', within) = allow c now (notification_key n) in
      if within
      then (let (e, w'') = next n w' in (e, (c', w'')))
      else (some (window_limit (notification_key n)), (c', w'))

-- `NewWindowDispatcher`
new_window_dispatcher :
    {W : Type 0}
    → Clock W
    → Option (Dispatcher W)
    → Option WindowCounter
    → Option (Dispatcher (WindowCounter × W) × WindowCounter)
new_window_dispatcher clock = wrap (send clock)
