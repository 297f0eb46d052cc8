-- ===== src/History/Export/Writer.antt =====
-- The `csv.Writer` of internal/history/export.go: a buffer before a writer that has room for so many
-- bytes and refuses the rest, which the buffer remembers.
use portwatch.Base.{
  ℕ, zero, suc, ◌≤◌, ◌<◌, ◌≡◌, ◌⊎◌, inl, inr, refl, ap, ◌∙◌, sym, List, [], ◌∷◌, ◌++◌, append_assoc,
  append-nil, length, length-append, take, drop, take-append-drop, Text, Option, none, some, leb,
  Bool-cases, if◌then◌else◌, arith,
}
use portwatch.History.Export.{Row, Sink}

pub record CsvWriter (E : Type 0) : Type 0 where
  -- What the writer below has taken.
  pub out : Text
  pub buffer : Text
  pub failure : Option E

abbrev pub fresh : {E : Type 0} → CsvWriter E
fresh = record { out = []; buffer = []; failure = none }

pub take_all : (n : ℕ) (xs : Text) → length xs ≤ n → take n xs ≡ xs
take_all zero [] h = refl
take_all zero (x ∷ xs) h = absurd (omega arith)
take_all (suc n) [] h = refl
take_all (suc n) (x ∷ xs) h = ap (◌∷◌ x) (take_all n xs (omega arith))

take-append_le : (n : ℕ) (xs ys : Text) → n ≤ length xs → take n (xs ++ ys) ≡ take n xs
take-append_le zero xs ys h = refl
take-append_le (suc n) [] ys h = absurd (omega arith)
take-append_le (suc n) (x ∷ xs) ys h = ap (◌∷◌ x) (take-append_le n xs ys (omega arith))

drop_all : (xs : Text) → drop (length xs) xs ≡ []
drop_all [] = refl
drop_all (x ∷ xs) = drop_all xs

-- `room` is that of the writer below, which refuses with `full`.
module _ {E : Type 0} (full : E) (room : ℕ) where
  -- The first `k` bytes of the buffer go to the writer below. What is left when that refuses is never
  -- written, since every later call finds the failure.
  unfoldable pub hand_on : ℕ → CsvWriter E → CsvWriter E
  hand_on k b =
      let offered = b.out ++ take k b.buffer in
      if leb (length offered) room
      then record { out = offered; buffer = drop k b.buffer; failure = none }
      else record { out = take room offered; buffer = []; failure = some full }

  abbrev unless_failed : Option E → CsvWriter E → CsvWriter E → CsvWriter E
  unless_failed none b later = later
  unless_failed (some e) b later = b

  -- `Flush`
  unfoldable pub push_out : CsvWriter E → CsvWriter E
  push_out b = unless_failed b.failure b (hand_on (length b.buffer) b)

  -- `layout` quotes a record and ends its line. How much of the buffer is handed on at a record depends
  -- on what is buffered and on the record.
  module _ (layout : List Text → Text) (spills : Text → List Text → ℕ) where
    -- `Write`, which returns the error that is remembered.
    unfoldable pub put : List Text → CsvWriter E → CsvWriter E
    put line b =
        unless_failed b.failure b
          (hand_on (spills b.buffer line) (record b { buffer = b.buffer ++ layout line }))

    abbrev pub csv_sink : (List Row → CsvWriter E → Option E × CsvWriter E) → Sink E (CsvWriter E)
    csv_sink encode = record {
      write_record = λ line b. ((put line b).failure, put line b);
      flush = push_out;
      pending = λ b. b.failure;
      encode = encode;
    }

  -- No failure so far, with this text written or buffered.
  pub record IsOpen (b : CsvWriter E) (text : Text) : Type 0 where
    pub good : b.failure ≡ none
    pub all : b.out ++ b.buffer ≡ text
    pub fits : length b.out ≤ room

  -- The text was too long for the writer below.
  pub record IsBroken (b : CsvWriter E) (text : Text) : Type 0 where
    pub bad : b.failure ≡ some full
    pub partly : b.out ≡ take room text
    pub exceeds : room < length text

  pub hand_on_lem :
      (k : ℕ) (b : CsvWriter E) (text : Text)
      → b.out ++ b.buffer ≡ text
      → IsOpen (hand_on k b) text ⊎ IsBroken (hand_on k b) text
  unfolding hand_on
  hand_on_lem k b text e =
      let offered = b.out ++ take k b.buffer in
      let all : offered ++ drop k b.buffer ≡ text =
        append_assoc b.out (take k b.buffer) (drop k b.buffer)
        ∙ ap (λ xs. b.out ++ xs) (take-append-drop k b.buffer)
        ∙ e in
      let longer : length offered ≤ length text =
        omega (arith, ap length all, length-append offered (drop k b.buffer)) in
      elim (Bool-cases (leb (length (b.out ++ take k b.buffer)) room)) [
        | inl fit ↦ inl (record {
          good = rw (hand_on, fit) refl;
          all = rw (hand_on, fit) all;
          fits = rw (hand_on, fit) (ground (arith, fit));
        })
        | inr over ↦
            let past : room < length offered = ground (arith, over) in
            inr (record {
              bad = rw (hand_on, over) refl;
              partly =
                  rw (hand_on, over)
                    (sym (take-append_le room offered (drop k b.buffer) (omega (arith, past)))
                      ∙ ap (take room) all);
              exceeds = omega (arith, past, longer);
            })
      ]

  module _ (layout : List Text → Text) (spills : Text → List Text → ℕ) where
    pub put_lem :
        (line : List Text) (b : CsvWriter E) (text : Text)
        → IsOpen b text
        → IsOpen (put layout spills line b) (text ++ layout line)
          ⊎ IsBroken (put layout spills line b) (text ++ layout line)
    unfolding put hand_on
    put_lem line b text o = rw (o.good) (
        hand_on_lem (spills b.buffer line) (record b { buffer = b.buffer ++ layout line })
          (text ++ layout line)
          (sym (append_assoc b.out b.buffer (layout line)) ∙ ap (λ xs. xs ++ layout line) o.all))

    -- Once it has broken, a writer stays so, whatever else was to be written.
    pub IsBroken-append :
        (b : CsvWriter E) (text rest : Text) → IsBroken b text → IsBroken b (text ++ rest)
    IsBroken-append b text rest k = record {
      bad = k.bad;
      partly = k.partly ∙ sym (take-append_le room text rest (omega (arith, k.exceeds)));
      exceeds = omega (arith, k.exceeds, length-append text rest);
    }

  hand_on-buffer : (b : CsvWriter E) → (hand_on (length b.buffer) b).buffer ≡ []
  unfolding hand_on
  hand_on-buffer b = ground (arith, drop_all b.buffer)

  pub push_out_lem :
      (b : CsvWriter E) (text : Text)
      → IsOpen b text
      → (((push_out b).failure ≡ none) × ((push_out b).out ≡ text) × (length text ≤ room))
        ⊎ IsBroken (push_out b) text
  unfolding push_out hand_on
  push_out_lem b text o =
      let b' = hand_on (length b.buffer) b in
      rw (o.good) (elim (hand_on_lem (length b.buffer) b text o.all) [
        | inl still ↦
            let done : b'.out ≡ text =
              sym (append-nil b'.out)
              ∙ ap (λ xs. b'.out ++ xs) (sym (hand_on-buffer b))
              ∙ still.all in
            inl (still.good, done, omega (arith, still.fits, ap length done))
        | inr broken ↦ inr broken
      ])
