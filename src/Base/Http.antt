-- ===== src/Base/Http.antt =====
-- What the sources use of net/http on the side of a client.
use mathlib.Core.List.{List}
use portwatch.Base.Int.{ℤ}
use portwatch.Base.Strings.{Text}

pub record Request : Type 0 where
  pub method : Text
  pub url : Text
  pub body : Text
  pub headers : List (Text × Text)

-- The error of the exchange, or the status of the answer.
pub data Reply (E : Type 0) : Type 0 where
  broken : E → Reply E
  status : ℤ → Reply E
