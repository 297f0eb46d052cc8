-- ===== src/Config.antt =====
-- internal/config/config.go: the loaded configuration, its checks and its defaults. The file system
-- and the YAML reader are arguments of `load`.
pub mod Valid
use portwatch.Base.{
  ℕ, ◌+◌, ℤ, pos, leb_ℤ, ltb_ℤ, List, [], ◌∷◌, ◌++◌, Text, text, if◌then◌else◌, Bool, ◌==◌, ◌&&◌,
  ◌||◌, text_eq,
}

pub record Action : Type 0 where
  pub kind : Text
  pub url : Text
  pub command : Text

pub record PortConfig : Type 0 where
  pub host : Text
  pub port : ℤ
  pub on_open : List Action
  pub on_close : List Action

pub record Config : Type 0 where
  pub interval : ℤ
  pub ports : List PortConfig

pub data Error : Type 0 where
  interval_not_positive : Error
  port_out_of_range : ℕ → ℤ → Error
  unknown_type : ℕ → ℕ → Text → Error
  reading_failed : Error
  parsing_failed : Error

pub data Result {ℓ} (A : Type ℓ) : Type ℓ where
  ok : A → Result A
  err : Error → Result A

-- `if err != nil { return …, err }` before the rest.
module _ {ℓ κ} {A : Type ℓ} {B : Type κ} where
  infixl 5 ◌>>=◌ ◌>>◌
  abbrev pub ◌>>=◌ : (first : Result A) (rest : A → Result B) → Result B
  first >>= rest = elim first [ err reason ↦ err reason | ok value ↦ rest value ]

  abbrev pub ◌>>◌ : (first : Result A) (rest : Result B) → Result B
  first >> rest = elim first [ err reason ↦ err reason | ok value ↦ rest ]

abbrev is_known : Text → Bool
is_known k = (k == text "webhook") || (k == text "script")

-- The loop over `append(p.OnOpen, p.OnClose...)`, from action `j` of port `i` on.
pub check_actions : ℕ → ℕ → List Action → Result (Unit {0})
check_actions i j [] = ok tt
check_actions i j (a ∷ rest) =
    let later = check_actions i (j + 1) rest in
    if is_known a.kind then later else err (unknown_type i j a.kind)

abbrev in_range : ℤ → Bool
in_range p = leb_ℤ (pos 1) p && leb_ℤ p (pos 65535)

-- `c.Ports[i].Host = "localhost"` where the host is empty.
abbrev pub default_host : PortConfig → PortConfig
default_host p = if p.host == [] then record p { host = text "localhost" } else p

-- The loop over the ports, from index `i` on, with the ports as it leaves them.
pub check_ports : ℕ → List PortConfig → Result (List PortConfig)
check_ports i [] = ok []
check_ports i (p ∷ rest) =
    let later = check_ports (i + 1) rest in
    if in_range p.port
    then (check_actions i 0 (p.on_open ++ p.on_close) >> (later >>= λ ps. ok (default_host p ∷ ps)))
    else err (port_out_of_range i p.port)

pub validate : Config → Result Config
validate c =
    if leb_ℤ c.interval (pos 0)
    then err interval_not_positive
    else (check_ports 0 c.ports >>= λ ps. ok (record c { ports = ps }))

abbrev pub ten_seconds : ℤ
ten_seconds = pos 10_000_000_000

-- `read` is os.ReadFile, and `unmarshal` is yaml.Unmarshal into a configuration that holds defaults.
unfoldable pub load : (Text → Result Text) → (Text → Config → Result Config) → Text → Result Config
load read unmarshal path = do
  content ← read path
  parsed ← unmarshal content (record { interval = ten_seconds; ports = [] })
  validate parsed
