-- ===== src/Config/Valid.antt =====
-- What `validate` accepts, what it leaves in the configuration, and what it reports.
use portwatch.Base.{
  ℕ, ◌+◌, ◌≡◌, refl, ◌↔◌, ◌⊎◌, pos, ◌≤ℤ◌, ◌<ℤ◌, List, [], ◌∷◌, ◌++◌, All, Text, text, arith, map,
  text_beq_iff, text_eq, text_beq, ap₂,
}
use portwatch.Config.{
  Action, PortConfig, Config, ok, check_actions, default_host, check_ports, validate,
}

abbrev KnownAction : Action → Type 0
KnownAction a = (a.kind ≡ text "webhook") ⊎ (a.kind ≡ text "script")

pub record IsValidPort (p : PortConfig) : Type 0 where
  pub low : pos 1 ≤ℤ p.port
  pub high : p.port ≤ℤ pos 65535
  pub known : All KnownAction (p.on_open ++ p.on_close)

check_actions-ok :
    (i j : ℕ) (acts : List Action) → check_actions i j acts ≡ ok tt → All KnownAction acts
unfolding check_actions
check_actions-ok i j [] e = tt
check_actions-ok i j (a ∷ acts) e = ground (
  arith,
  text_beq_iff a.kind (text "webhook"),
  text_beq_iff a.kind (text "script"),
  check_actions-ok i (j + 1) acts,
)

check_actions_complete :
    (i j : ℕ) (acts : List Action) → All KnownAction acts → check_actions i j acts ≡ ok tt
unfolding check_actions
check_actions_complete i j [] h = refl
check_actions_complete i j (a ∷ acts) (k, h) = ground (
  arith,
  text_beq_iff a.kind (text "webhook"),
  text_beq_iff a.kind (text "script"),
  check_actions_complete i (j + 1) acts h,
)

abbrev or_localhost : Text → Text
or_localhost [] = text "localhost"
or_localhost (c ∷ host) = c ∷ host

-- The port with a host.
abbrev pub filled : PortConfig → PortConfig
filled p = record {
  host = or_localhost p.host;
  port = p.port;
  on_open = p.on_open;
  on_close = p.on_close;
}

default_host-filled : (host : Text) (p : PortConfig) → p.host ≡ host → default_host p ≡ filled p
unfolding text_beq
default_host-filled [] p e = rw e refl
default_host-filled (c ∷ host) p e = rw e refl

map-filled : (ps : List PortConfig) → map default_host ps ≡ map filled ps
map-filled [] = refl
map-filled (p ∷ ps) = ap₂ ◌∷◌ (default_host-filled p.host p refl) (map-filled ps)

check_ports-ok :
    (i : ℕ) (ps : List PortConfig) {qs : List PortConfig}
    → check_ports i ps ≡ ok qs
    → All IsValidPort ps × (qs ≡ map default_host ps)
unfolding check_ports
check_ports-ok i [] e = ground arith
check_ports-ok i (p ∷ ps) {qs} e =
    grind (arith, check_actions-ok i 0 (p.on_open ++ p.on_close), check_ports-ok (i + 1) ps)

check_ports_complete :
    (i : ℕ) (ps : List PortConfig)
    → All IsValidPort ps
    → check_ports i ps ≡ ok (map default_host ps)
unfolding check_ports
check_ports_complete i [] h = refl
check_ports_complete i (p ∷ ps) (v, h) = ground (
  arith,
  check_actions_complete i 0 (p.on_open ++ p.on_close) v.known,
  check_ports_complete (i + 1) ps h,
)

pub record IsValid (c : Config) : Type 0 where
  pub positive : pos 0 <ℤ c.interval
  pub ports : All IsValidPort c.ports

-- The configuration with `localhost` for every empty host.
abbrev pub defaulted : Config → Config
defaulted c = record c { ports = map filled c.ports }

-- `validate` accepts exactly the configurations with a positive interval whose ports lie in
-- 1..65535 and whose actions have a known type, and then returns them with `localhost`
-- for every empty host.
pub validate_iff : (c d : Config) → (validate c ≡ ok d) ↔ (IsValid c × (d ≡ defaulted c))
unfolding validate
validate_iff c d = (
  λ e. grind (arith, check_ports-ok 0 c.ports, map-filled c.ports),
  λ h. ground (arith, check_ports_complete 0 c.ports h.0.ports, map-filled c.ports),
)
