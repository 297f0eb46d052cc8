-- ===== src/Alert/Digest.antt =====
-- internal/alert/digest.go and digest_dispatcher.go. The timer is whether it is set; `flush` returns
-- what it sends, of which the order is that of a map's iteration, and which may be any.
pub mod Laws
use portwatch.Base.{
  ℕ, suc, ◌+◌, ℤ, pos, ltb, Text, text, text_eq, format_int, Map, lookup, insert, List, [], ◌∷◌,
  ◌++◌, map, Bool, true, false, if◌then◌else◌, Option, none, some,
}
use portwatch.Alert.Notification.{Notification, Error, Dispatcher}
use portwatch.Alert.Key.{notification_key}

pub record DigestPolicy : Type 0 where
  pub window : ℤ

abbrev default_digest_policy : DigestPolicy
default_digest_policy = record { window = pos 300_000_000_000 }

pub record DigestEntry : Type 0 where
  pub notification : Notification
  pub count : ℕ

pub record Digester : Type 0 where
  pub policy : DigestPolicy
  pub bucket : Map Text DigestEntry
  timer_set : Bool

pub new_digester : DigestPolicy → Digester
new_digester policy = record { policy = policy; bucket = []; timer_set = false }

abbrev pub one_more : Notification → Option DigestEntry → DigestEntry
one_more n none = record { notification = n; count = 1 }
one_more n (some e) = record e { count = e.count + 1 }

unfoldable pub add : Digester → Notification → Digester
add d n = record d {
  bucket = insert (notification_key n) (one_more n (lookup (notification_key n) d.bucket)) d.bucket;
  timer_set = true;
}

-- The notification that `flush` sends for an entry.
pub digest_of : DigestEntry → Notification
digest_of e =
    if ltb 1 e.count
    then record e.notification {
      message =
          e.notification.message
          ++ text " (x"
          ++ format_int (pos e.count)
          ++ text " in digest window)";
    }
    else e.notification

abbrev pub values : Map Text DigestEntry → List DigestEntry
values [] = []
values ((key, e) ∷ rest) = e ∷ values rest

unfoldable pub flush : Digester → Digester × List Notification
flush d = (record d { bucket = []; timer_set = false }, map digest_of (values d.bucket))

-- `(*DigestDispatcher).Send`
module _ {W : Type 0} where
  pub send : Dispatcher (Digester × W)
  send n (d, w) = (none, (add d n, w))

-- `NewDigestDispatcher`, with the digester that it makes.
new_digest_dispatcher : {W : Type 0} → DigestPolicy → Dispatcher (Digester × W) × Digester
new_digest_dispatcher policy = (send, new_digester policy)
