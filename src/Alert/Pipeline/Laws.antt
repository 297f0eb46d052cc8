-- ===== src/Alert/Pipeline/Laws.antt =====
-- How far a notification gets in a pipeline.
use portwatch.Base.{◌≡◌, ◌⊎◌, inl, inr, refl, ap, List, [], ◌∷◌, ◌++◌, Option, none, some}
use portwatch.Alert.Notification.{Notification, Error, Dispatcher}
use portwatch.Alert.Pipeline.{Pipeline, send_stages, send}

module _ {W : Type 0} where
  -- The stages one after the other, each of which returns nil.
  abbrev Accepts : List (Dispatcher W) → Notification → W → W → Type 0
  Accepts [] n w w' = w ≡ w'
  Accepts (d ∷ ds) n w w' = (v : W) × (d n w ≡ (none, v)) × Accepts ds n v w'

  -- A stage fails, after all those before it have accepted.
  pub record StopsAt (n : Notification) (w : W) (ds : List (Dispatcher W)) (e : Error) (w' : W)
      : Type 0 where
    pub before : List (Dispatcher W)
    pub stage : Dispatcher W
    pub after : List (Dispatcher W)
    pub split : ds ≡ before ++ (stage ∷ after)
    pub reached : W
    pub accepted : Accepts before n w reached
    pub failed_there : stage n reached ≡ (some e, w')

  abbrev Outcome : List (Dispatcher W) → Notification → W → Type 0
  Outcome ds n w =
      ((w' : W) × (send_stages ds n w ≡ (none, w')) × Accepts ds n w w')
      ⊎ ((e : Error) × (w' : W) × (send_stages ds n w ≡ (some e, w')) × StopsAt n w ds e w')

  go_on :
      (d : Dispatcher W) (ds : List (Dispatcher W)) (n : Notification) (w v : W)
      → d n w ≡ (none, v)
      → Outcome ds n v
      → Outcome (d ∷ ds) n w
  unfolding send_stages
  go_on d ds n w v p (inl (w', e, a)) = inl (w', rw (p, e), (v, p, a))
  go_on d ds n w v p (inr (x, w', e, s)) = inr (
    x,
    w',
    rw (p, e),
    record {
      before = d ∷ s.before;
      stage = s.stage;
      after = s.after;
      split = ap (λ y. d ∷ y) s.split;
      reached = s.reached;
      accepted = (v, p, s.accepted);
      failed_there = s.failed_there;
    },
  )

  after_stage :
      (d : Dispatcher W) (ds : List (Dispatcher W)) (n : Notification) (w : W)
      (r : Option Error × W)
      → d n w ≡ r
      → Outcome ds n r.1
      → Outcome (d ∷ ds) n w
  unfolding send_stages
  after_stage d ds n w (none, v) p rest = go_on d ds n w v p rest
  after_stage d ds n w (some e, v) p rest = inr (
    e,
    v,
    rw p refl,
    record {
      before = [];
      stage = d;
      after = ds;
      split = refl;
      reached = w;
      accepted = refl;
      failed_there = p;
    },
  )

  send_stages_lem : (ds : List (Dispatcher W)) (n : Notification) (w : W) → Outcome ds n w
  unfolding send_stages
  send_stages_lem [] n w = inl (w, refl, refl)
  send_stages_lem (d ∷ ds) n w = after_stage d ds n w (d n w) refl (send_stages_lem ds n (d n w).1)

  -- A pipeline returns nil exactly when every stage, in order and each on what the one before it
  -- left, has returned nil; else it returns the error of a stage all of whose predecessors returned
  -- nil, and no later stage is run.
  send-in_order :
      (p : Pipeline W) (n : Notification) (w : W)
      → ((w' : W) × (send p n w ≡ (none, w')) × Accepts p.stages n w w')
        ⊎ ((e : Error) × (w' : W) × (send p n w ≡ (some e, w')) × StopsAt n w p.stages e w')
  unfolding send
  send-in_order p n w = send_stages_lem p.stages n w
