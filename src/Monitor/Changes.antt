-- ===== src/Monitor/Changes.antt =====
-- The changes that a tracker reports.
use portwatch.Base.{
  ◌↔◌, ap₂, Bool, ◌&&◌, last_cut_unique, format_int, format_int-Without, format_int-injective,
  int_eq, eq_ℤ_iff, arith, ℤ, List, [], ◌∷◌, ◌≡◌, refl, Text, text_eq, text_beq_iff, ◌==◌, lookup,
  lookup-insert, Option, none, some, Bool-cases, inl, inr, if◌then◌else◌,
}
use portwatch.Monitor.{
  State, StateChange, Tracker, new_tracker, same_state, host_key, change_from, poll,
}

pub record Polled : Type 0 where
  pub host : Text
  pub port : ℤ
  pub found : State

abbrev pair : Option StateChange → List (State × State) → List (State × State)
pair none rest = rest
pair (some c) rest = (c.previous, c.current) ∷ rest

-- Two polls share a key exactly if they agree in the host and in the port, whatever bytes a host holds.
host_key_iff : (g h : Text) (p q : ℤ) → (host_key g p ≡ host_key h q) ↔ ((g ≡ h) × (p ≡ q))
host_key_iff g h p q = (
  λ e.
      let c =
        last_cut_unique b':' g h (format_int p) (format_int q) (format_int-Without p)
          (format_int-Without q) e in
      (c.0, format_int-injective p q c.1),
  λ same. ap₂ host_key same.0 same.1,
)

abbrev is_of : Text → ℤ → Polled → Bool
is_of host port p = (p.host == host) && (p.port == port)

same_key :
    (host : Text) (port : ℤ) (p : Polled)
    → (host_key p.host p.port == host_key host port) ≡ is_of host port p
same_key host port p = ground (
  arith,
  text_beq_iff (host_key p.host p.port) (host_key host port),
  host_key_iff p.host host p.port port,
  text_beq_iff p.host host,
  eq_ℤ_iff p.port port,
)

-- The changes reported by the polls of one host and port, among polls of any.
unfoldable pub reported : Text → ℤ → Tracker → List Polled → List (State × State)
reported host port t [] = []
reported host port t (p ∷ ps) =
    let (t', change) = poll t p.host p.port p.found in
    let rest = reported host port t' ps in if is_of host port p then pair change rest else rest

-- What the checker found for them.
abbrev pub found_for : Text → ℤ → List Polled → List State
found_for host port [] = []
found_for host port (p ∷ ps) =
    let rest = found_for host port ps in if is_of host port p then p.found ∷ rest else rest

-- The neighbours that differ.
abbrev pub changes : Option State → List State → List (State × State)
changes last [] = []
changes none (s ∷ ss) = changes (some s) ss
changes (some p) (s ∷ ss) =
    let rest = changes (some s) ss in if same_state p s then rest else (p, s) ∷ rest

pair-change_from :
    (host : Text) (port : ℤ) (s : State) (last : Option State) (ss : List State)
    → pair (change_from host port s last) (changes (some s) ss) ≡ changes last (s ∷ ss)
pair-change_from host port s none ss = refl
pair-change_from host port s (some p) ss = elim (Bool-cases (same_state p s)) [
  | inl same ↦ rw same refl
  | inr other ↦ rw other refl
]

reported_lem :
    (host : Text) (port : ℤ) (t : Tracker) (ps : List Polled)
    → reported host port t ps
      ≡ changes (lookup (host_key host port) t.states) (found_for host port ps)
unfolding reported poll
reported_lem host port t [] = refl
reported_lem host port t (p ∷ ps) =
    let key = host_key host port in
    let key' = host_key p.host p.port in
    let ih = reported_lem host port (poll t p.host p.port p.found).0 ps in
    elim (Bool-cases (key' == key)) [
      | inl mine ↦
          rw (← same_key host port p, mine, ih, lookup-insert, mine, (text_beq_iff key' key).0 mine)
            (pair-change_from p.host p.port p.found (lookup key t.states) (found_for host port ps))
      | inr other ↦ rw (← same_key host port p, other, ih, lookup-insert, other) refl
    ]

-- Whatever is polled in between, the changes that a new tracker reports for a host and port, each
-- with its previous and its current state, are exactly the neighbours that differ in the list of
-- the states that the checker found for them, in order; the first one found is no change.
pub reported-new_tracker :
    (timeout : ℤ) (host : Text) (port : ℤ) (ps : List Polled)
    → reported host port (new_tracker timeout) ps ≡ changes none (found_for host port ps)
unfolding new_tracker lookup
reported-new_tracker timeout host port ps = reported_lem host port (new_tracker timeout) ps
