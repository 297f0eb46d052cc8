-- ===== src/Alert/LoadShed.antt =====
-- internal/alert/shedload.go. The counter is modelled as an integer that does not wrap.
pub mod Steps
use portwatch.Base.{ℕ, ℤ, pos, negsuc, ◌+ℤ◌, ltb_ℤ, leb_ℤ, Bool, if◌then◌else◌, Option, none, some}
use portwatch.Alert.Notification.{Notification, Error, load_shed, Dispatcher}
use portwatch.Alert.BoundedLog.{positive_or}

pub record ShedPolicy : Type 0 where
  pub max_in_flight : ℤ

abbrev default_shed_policy : ShedPolicy
default_shed_policy = record { max_in_flight = pos 32 }

pub record LoadShedder : Type 0 where
  pub policy : ShedPolicy
  pub inflight : ℤ

unfoldable pub new_load_shedder : ShedPolicy → LoadShedder
new_load_shedder p = record {
  policy = record { max_in_flight = positive_or p.max_in_flight default_shed_policy.max_in_flight };
  inflight = pos 0;
}

-- `inflight.Add`
unfoldable pub add : LoadShedder → ℤ → LoadShedder
add l d = record l { inflight = l.inflight +ℤ d }

-- The test of `Acquire`, on the value that its `Add(1)` returned.
unfoldable pub exceeds : LoadShedder → Bool
exceeds l = ltb_ℤ l.policy.max_in_flight l.inflight

-- `Acquire`, with no other call between its two changes of the counter.
pub acquire : LoadShedder → Option Error × LoadShedder
acquire l =
    let l' = add l (pos 1) in if exceeds l' then (some load_shed, add l' (negsuc 0)) else (none, l')

pub release : LoadShedder → LoadShedder
release l = add l (negsuc 0)

module _ {W : Type 0} (next : Dispatcher W) where
  abbrev serve : Notification → W → Option Error × LoadShedder → Option Error × (LoadShedder × W)
  serve n w (some e, l) = (some e, (l, w))
  serve n w (none, l) = let (e, w') = next n w in (e, (release l, w'))

  pub send : Dispatcher (LoadShedder × W)
  send n (l, w) = serve n w (acquire l)
