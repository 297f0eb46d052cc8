-- ===== src/Alert/Retry/Attempts.antt =====
-- How often a request is tried, how long the waits are, and what comes back.
use portwatch.Base.{ℕ, zero, suc, ℤ, pos, ◌≤ℤ◌, List, [], ◌∷◌, ◌++◌, Option, none, some}
use portwatch.Alert.Notification.{Error}
use portwatch.Alert.Retry.{
  RetryPolicy, Reply, replied, Outcome, answered, gave_up, final_status, next_wait, cause,
}

-- A server whose replies are known, a context that ends during the wait after `patience` others, and a
-- record of the waits that were over.
pub record Server : Type 0 where
  pub replies : List Reply
  pub waits : List ℤ
  pub patience : ℕ

abbrev pub serve : Server → Reply × Server
serve s = elim s.replies [
  | [] ↦ (replied (pos 500), s)
  | reply ∷ rest ↦ (reply, record s { replies = rest })
]

abbrev pub pause : Error → ℤ → Server → Option Error × Server
pause ended wait s = elim s.patience [
  | zero ↦ (some ended, s)
  | suc left ↦ (none, record s { waits = s.waits ++ wait ∷ []; patience = left })
]

-- The first reply that is final.
abbrev pub first_final : List Reply → Option ℤ
first_final [] = none
first_final (r ∷ rs) = elim (final_status r) [ some status ↦ some status | none ↦ first_final rs ]

-- How many replies there are up to it.
abbrev unless_final : Option ℤ → ℕ → ℕ
unless_final (some status) k = 0
unless_final none k = k

abbrev pub tries : List Reply → ℕ
tries [] = 0
tries (r ∷ rs) = suc (unless_final (final_status r) (tries rs))

abbrev pub last_reply : Option Reply → List Reply → Option Reply
last_reply last [] = last
last_reply last (r ∷ rs) = last_reply (some r) rs

module _ {F : Type 0} (times : ℤ → F → ℤ) (unwrap : Error → Option Error) where
  -- The first `k` waits.
  abbrev pub waits_from : RetryPolicy F → ℕ → ℤ → List ℤ
  waits_from p zero wait = []
  waits_from p (suc k) wait = wait ∷ waits_from p k (next_wait times p wait)

  abbrev pub verdict : RetryPolicy F → Option ℤ → Option Reply → Outcome
  verdict p (some status) last = answered status
  verdict p none last = gave_up p.max_attempts (cause unwrap last)

  abbrev pub IsCapped : RetryPolicy F → ℤ → Type 0
  IsCapped p wait = wait ≤ℤ p.max_wait
