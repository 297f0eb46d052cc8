-- ===== src/Alert/Backoff.antt =====
-- internal/alert/backoff.go. `power k` is the duration that the floating-point product of the base
-- interval and the multiplier to the power `k` is converted to.
pub mod Laws
use portwatch.Base.{
  ℕ, suc, ◌+◌, ℤ, pos, ◌+ℤ◌, ltb_ℤ, Text, text_eq, Map, lookup, insert, delete, List, [], ◌∷◌, Bool,
  true, false, if◌then◌else◌, Option, none, some,
}

-- `Multiplier` is read by `power` only.
pub record BackoffPolicy : Type 0 where
  pub base_interval : ℤ
  pub max_interval : ℤ

abbrev default_backoff_policy : BackoffPolicy
default_backoff_policy = record {
  base_interval = pos 30_000_000_000;
  max_interval = pos 1_800_000_000_000;
}

pub record BackoffEntry : Type 0 where
  pub attempts : ℕ
  pub next_at : ℤ

pub record BackoffLimiter : Type 0 where
  pub policy : BackoffPolicy
  pub state : Map Text BackoffEntry

pub new_backoff_limiter : BackoffPolicy → BackoffLimiter
new_backoff_limiter p = record { policy = p; state = [] }

module _ (power : ℕ → ℤ) where
  abbrev pub interval : BackoffPolicy → ℕ → ℤ
  interval p attempts =
      if ltb_ℤ p.max_interval (power attempts) then p.max_interval else power attempts

  -- The entry under the key after `Allow`, and its answer, given the one that it found.
  abbrev pub try_at : BackoffPolicy → ℤ → Option BackoffEntry → BackoffEntry × Bool
  try_at p now none = (record { attempts = 1; next_at = now +ℤ p.base_interval }, true)
  try_at p now (some e) =
      if ltb_ℤ now e.next_at
      then (e, false)
      else (record { attempts = suc e.attempts; next_at = now +ℤ interval p e.attempts }, true)

  unfoldable pub allow : BackoffLimiter → ℤ → Text → BackoffLimiter × Bool
  allow b now key =
      let (e, pass) = try_at b.policy now (lookup key b.state) in
      (record b { state = insert key e b.state }, pass)

unfoldable pub reset : BackoffLimiter → Text → BackoffLimiter
reset b key = record b { state = delete key b.state }
