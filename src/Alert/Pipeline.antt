-- ===== src/Alert/Pipeline.antt =====
-- internal/alert/pipeline.go and fallback.go.
pub mod Laws
use portwatch.Base.{ℕ, ◌+◌, List, [], ◌∷◌, length, Option, none, some, ◌⊎◌, inl, inr}
use portwatch.Alert.Notification.{Notification, Error, nil_stage, Dispatcher}

pub record Pipeline (W : Type 0) : Type 0 where
  pub stages : List (Dispatcher W)

pub record Fallback (W : Type 0) : Type 0 where
  pub primary : Dispatcher W
  pub fallback : Dispatcher W

module _ {W : Type 0} where
  abbrev add_stage : Dispatcher W → Error ⊎ List (Dispatcher W) → Error ⊎ List (Dispatcher W)
  add_stage d (inl e) = inl e
  add_stage d (inr ds) = inr (d ∷ ds)

  -- The loop of `NewPipeline`, at index `i` of `rest`; `none` is a nil stage.
  check_stages : ℕ → List (Option (Dispatcher W)) → Error ⊎ List (Dispatcher W)
  check_stages i [] = inr []
  check_stages i (none ∷ rest) = inl (nil_stage (i + 1))
  check_stages i (some d ∷ rest) = add_stage d (check_stages (i + 1) rest)

  abbrev as_pipeline : Error ⊎ List (Dispatcher W) → Error ⊎ Pipeline W
  as_pipeline (inl e) = inl e
  as_pipeline (inr ds) = inr (record { stages = ds })

  new_pipeline : Option (Dispatcher W) → List (Option (Dispatcher W)) → Error ⊎ Pipeline W
  new_pipeline none rest = inl (nil_stage 0)
  new_pipeline (some first) rest = as_pipeline (add_stage first (check_stages 0 rest))

  -- What follows a stage: nothing after an error.
  abbrev and_then : Option Error → Option Error × W → W → Option Error × W
  and_then none rest w = rest
  and_then (some e) rest w = (some e, w)

  pub send_stages : List (Dispatcher W) → Dispatcher W
  send_stages [] n w = (none, w)
  send_stages (d ∷ ds) n w = let (e, w') = d n w in and_then e (send_stages ds n w') w'

  pub send : Pipeline W → Dispatcher W
  send p n w = send_stages p.stages n w

  pub len : Pipeline W → ℕ
  len p = length p.stages

  -- What `(*FallbackDispatcher).Send` does after the primary.
  abbrev retried : Dispatcher W → Notification → Option Error × W → Option Error × W
  retried fallback n (none, w) = (none, w)
  retried fallback n (some e, w) = fallback n w

  unfoldable pub send_or_fallback : Fallback W → Dispatcher W
  send_or_fallback f n w = retried f.fallback n (f.primary n w)

  -- `NewFallbackDispatcher`; `none` is a nil argument, and a panic.
  new_fallback_dispatcher : Option (Dispatcher W) → Option (Dispatcher W) → Option (Fallback W)
  new_fallback_dispatcher none fallback = none
  new_fallback_dispatcher (some primary) none = none
  new_fallback_dispatcher (some primary) (some fallback) =
      some (record { primary = primary; fallback = fallback })
