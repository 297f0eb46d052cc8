-- ===== src/Alert/Mux/Laws.antt =====
-- Which branch of a mux gets a notification.
use portwatch.Base.{
  ◌≡◌, ◌⊎◌, inl, inr, refl, ap, List, [], ◌∷◌, ◌++◌, All, true, false, Bool-cases, Option,
}
use portwatch.Alert.Notification.{Notification, Dispatcher}
use portwatch.Alert.Mux.{Mux, MuxBranch, or_drop, first_match, send}

module _ {W : Type 0} where
  abbrev Misses : Notification → List (MuxBranch W) → Type 0
  Misses n = All (λ b. b.predicate n ≡ false)

  -- `b` is the first branch that matches.
  pub record IsFirst (n : Notification) (b : MuxBranch W) (bs : List (MuxBranch W)) : Type 0 where
    pub before : List (MuxBranch W)
    pub after : List (MuxBranch W)
    pub split : bs ≡ before ++ (b ∷ after)
    pub misses : Misses n before
    pub hits : b.predicate n ≡ true

  abbrev Choice : List (MuxBranch W) → Option (Dispatcher W) → Notification → W → Type 0
  Choice bs otherwise n w =
      (Misses n bs × (first_match bs otherwise n w ≡ or_drop otherwise n w))
      ⊎ ((b : MuxBranch W) × IsFirst n b bs × (first_match bs otherwise n w ≡ b.target n w))

  later :
      (b : MuxBranch W) (bs : List (MuxBranch W)) (otherwise : Option (Dispatcher W))
      (n : Notification) (w : W)
      → b.predicate n ≡ false
      → Choice bs otherwise n w
      → Choice (b ∷ bs) otherwise n w
  unfolding first_match
  later b bs otherwise n w miss (inl (misses, e)) = inl ((miss, misses), rw (miss, e))
  later b bs otherwise n w miss (inr (c, f, e)) = inr (
    c,
    record {
      before = b ∷ f.before;
      after = f.after;
      split = ap (λ x. b ∷ x) f.split;
      misses = (miss, f.misses);
      hits = f.hits;
    },
    rw (miss, e),
  )

  first_match_lem :
      (bs : List (MuxBranch W)) (otherwise : Option (Dispatcher W)) (n : Notification) (w : W)
      → Choice bs otherwise n w
  unfolding first_match
  first_match_lem [] otherwise n w = inl (tt, refl)
  first_match_lem (b ∷ bs) otherwise n w = elim (Bool-cases (b.predicate n)) [
    | inl hit ↦
        inr (
          b,
          record { before = []; after = bs; split = refl; misses = tt; hits = hit },
          rw hit refl,
        )
    | inr miss ↦ later b bs otherwise n w miss (first_match_lem bs otherwise n w)
  ]

  -- A mux sends a notification to the first branch whose predicate holds of it, and to no other,
  -- and returns what that returns; with no such branch it sends it to its default dispatcher, or
  -- drops it with nil if it has none.
  send-IsFirst :
      (m : Mux W) (n : Notification) (w : W)
      → (Misses n m.branches × (send m n w ≡ or_drop m.default_dispatcher n w))
        ⊎ ((b : MuxBranch W) × IsFirst n b m.branches × (send m n w ≡ b.target n w))
  unfolding send
  send-IsFirst m n w = first_match_lem m.branches m.default_dispatcher n w
