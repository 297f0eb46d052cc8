-- ===== src/Alert/Transform/Template.antt =====
-- What a title template renders to.
use portwatch.Base.{
  ℕ, ◌≡◌, ◌≢◌, refl, ap, ◌∙◌, ℤ, Text, text, format_int, List, [], ◌∷◌, ◌++◌, All, none, arith,
}
use portwatch.Alert.Metadata.{Labelled}
use portwatch.Alert.Transform.{replace, first_pair, placeholders, render_template}

-- A template in pieces: a byte or one of the placeholders.
pub data Piece : Type 0 where
  byte : ℕ → Piece
  port : Piece
  state : Piece
  host : Piece
  time : Piece

abbrev pub written : Piece → Text
written (byte c) = c ∷ []
written port = text "{port}"
written state = text "{state}"
written host = text "{host}"
written time = text "{time}"

abbrev pub value : (ℤ → Text) → Labelled → Piece → Text
value format_time n (byte c) = c ∷ []
value format_time n port = format_int n.port
value format_time n state = n.state
value format_time n host = n.host
value format_time n time = format_time n.timestamp

abbrev joined : (Piece → Text) → List Piece → Text
joined f [] = []
joined f (p ∷ ps) = f p ++ joined f ps

-- A byte is no opening brace.
abbrev IsPlain : Piece → Type 0
IsPlain (byte c) = c ≢ b'{'
IsPlain port = Unit {0}
IsPlain state = Unit {0}
IsPlain host = Unit {0}
IsPlain time = Unit {0}

module _ (format_time : ℤ → Text) (n : Labelled) where
  first_pair-plain :
      (c : ℕ) (s : Text) → c ≢ b'{' → first_pair (placeholders format_time n) (c ∷ s) ≡ none
  unfolding first_pair
  first_pair-plain c s h = ground (arith, h)

  replace-plain :
      (c : ℕ) (s : Text)
      → c ≢ b'{'
      → replace (placeholders format_time n) 0 (c ∷ s)
        ≡ c ∷ replace (placeholders format_time n) 0 s
  unfolding replace
  replace-plain c s h = ground (arith, first_pair-plain c s h)

  replace-joined :
      (ps : List Piece)
      → All IsPlain ps
      → replace (placeholders format_time n) 0 (joined written ps) ≡ joined (value format_time n) ps
  unfolding replace first_pair
  replace-joined [] h = refl
  replace-joined (byte c ∷ ps) (h, hs) =
      replace-plain c (joined written ps) h ∙ ap (◌∷◌ c) (replace-joined ps hs)
  replace-joined (port ∷ ps) (h, hs) = ap (◌++◌ (format_int n.port)) (replace-joined ps hs)
  replace-joined (state ∷ ps) (h, hs) = ap (◌++◌ n.state) (replace-joined ps hs)
  replace-joined (host ∷ ps) (h, hs) = ap (◌++◌ n.host) (replace-joined ps hs)
  replace-joined (time ∷ ps) (h, hs) = ap (◌++◌ (format_time n.timestamp)) (replace-joined ps hs)

  -- A template of placeholders and of bytes that are no opening brace renders to its pieces in order,
  -- each placeholder as its value and each byte as itself, whatever braces the values hold: a value
  -- is not searched again.
  render_template-joined :
      (ps : List Piece)
      → All IsPlain ps
      → render_template format_time (joined written ps) n ≡ joined (value format_time n) ps
  unfolding render_template
  render_template-joined ps h = replace-joined ps h
