-- ===== src/History/Query/Selection.antt =====
-- What `Query` returns, against the meaning of the filter's fields.
use portwatch.Base.{
  ◌-◌, ◌≡◌, ◌↔◌, ◌⊎◌, inl, inr, ℤ, pos, pos_part, ◌≤ℤ◌, List, [], ◌∷◌, ◌++◌, text_beq_iff, eq_ℤ_iff,
  arith, true, Bool-cases, keep, length, length-last_n, take, take-append-drop, min, if◌then◌else◌,
  ltb_ℤ, ltb, ◌&&◌,
}
use portwatch.History.Ring.{Event, Ring, snapshot}
use portwatch.History.Query.{Filter, passes, limited, query}

-- A zero field asks for nothing; `since` asks for events at that time or after it.
pub record Selects (f : Filter) (e : Event) : Type 0 where
  pub port : (f.port ≡ pos 0) ⊎ (e.port ≡ f.port)
  pub state : (f.state ≡ []) ⊎ (e.state ≡ f.state)
  pub since : (f.since ≡ pos 0) ⊎ (f.since ≤ℤ e.timestamp)

passes_iff : (f : Filter) (e : Event) → (passes f e ≡ true) ↔ Selects f e
passes_iff f e = ground (
  arith,
  eq_ℤ_iff f.port (pos 0),
  eq_ℤ_iff e.port f.port,
  text_beq_iff f.state [],
  text_beq_iff e.state f.state,
  eq_ℤ_iff f.since (pos 0),
)

-- The events of `all` that the filter selects are those of `out`, in the same order.
pub data Selection (f : Filter) : List Event → List Event → Type 0 where
  done : Selection f [] []
  taken :
      {e : Event} {es out : List Event}
      → Selects f e
      → Selection f es out
      → Selection f (e ∷ es) (e ∷ out)
  skipped :
      {e : Event} {es out : List Event}
      → ¬ Selects f e
      → Selection f es out
      → Selection f (e ∷ es) out

keep-Selection : (f : Filter) (es : List Event) → Selection f es (keep (passes f) es)
keep-Selection f [] = done
keep-Selection f (e ∷ es) = elim (Bool-cases (passes f e)) [
  | inl h ↦ rw h (taken ((passes_iff f e).0 h) (keep-Selection f es))
  | inr h ↦ rw h (skipped (λ s. cc (h, (passes_iff f e).1 s)) (keep-Selection f es))
]

-- What the limit cuts off.
cut : ℤ → List Event → List Event
cut limit es =
    if ltb_ℤ (pos 0) limit && ltb (pos_part limit) (length es)
    then take (length es - pos_part limit) es
    else []

cut-append-limited : (limit : ℤ) (es : List Event) → es ≡ cut limit es ++ limited limit es
unfolding cut
cut-append-limited limit es = ground (arith, take-append-drop (length es - pos_part limit) es)

length-limited :
    (limit : ℤ) (es : List Event)
    → length (limited limit es)
      ≡ (if ltb_ℤ (pos 0) limit then min (pos_part limit) (length es) else length es)
length-limited limit es = ground (arith, length-last_n (pos_part limit) es)

-- `Query` returns, in the order of the ring, the newest of the events that the filter selects: all
-- of them where the limit is not positive, and otherwise as many as the limit allows.
pub query_lem :
    (r : Ring) (f : Filter)
    → (selected older : List Event) × Selection f (snapshot r) selected
      × (selected ≡ older ++ query r f)
      × (length (query r f) ≡ (
          if ltb_ℤ (pos 0) f.limit
          then min (pos_part f.limit) (length selected)
          else length selected))
unfolding query
query_lem r f = (
  keep (passes f) (snapshot r),
  cut f.limit (keep (passes f) (snapshot r)),
  keep-Selection f (snapshot r),
  cut-append-limited f.limit (keep (passes f) (snapshot r)),
  length-limited f.limit (keep (passes f) (snapshot r)),
)
