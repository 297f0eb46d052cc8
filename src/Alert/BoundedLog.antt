-- ===== src/Alert/BoundedLog.antt =====
-- What the buffers of the package promise alike (alert.Tap, AuditLog, DeadLetterQueue and Replayer):
-- they hold the newest entries, as many as fit, oldest first.
use portwatch.Base.{
  ℕ, ◌<◌, ◌≡◌, ◌∙◌, List, [], ◌∷◌, ◌++◌, push_bounded, push_bounded-last_n, last_n, last_n-nil,
  append-nil, append_assoc, sym, ℤ, pos, pos_part, leb_ℤ, if◌then◌else◌, arith,
}

-- `if cap <= 0 { cap = default }`
abbrev pub positive_or : ℤ → ℤ → ℤ
positive_or x d = if leb_ℤ x (pos 0) then d else x

pub positive_or-pos : (x d : ℤ) → 0 < pos_part d → 0 < pos_part (positive_or x d)
positive_or-pos x d h = ground arith

pub record BoundedLog (L A : Type 0) : Type 0 where
  pub push : L → A → L
  pub entries : L → List A
  pub room : L → ℕ
  pub entries-push : (l : L) (a : A) → entries (push l a) ≡ push_bounded (room l) (entries l) a
  pub room-push : (l : L) (a : A) → room (push l a) ≡ room l

module _ {L A : Type 0} (log : BoundedLog L A) where
  open log use {push, entries, room, entries-push, room-push}

  unfoldable pub push_all : L → List A → L
  push_all l [] = l
  push_all l (a ∷ more) = push_all (push l a) more

  -- A log that holds the newest entries of a history goes on holding them.
  push_all-last_n :
      (l : L) (h new : List A)
      → 0 < room l
      → entries l ≡ last_n (room l) h
      → entries (push_all l new) ≡ last_n (room l) (h ++ new)
  unfolding push_all
  push_all-last_n l h [] p e = rw append-nil e
  push_all-last_n l h (a ∷ new) p e =
      let next : entries (push l a) ≡ last_n (room (push l a)) (h ++ a ∷ []) =
        entries-push l a ∙ rw (e, room-push l a) (push_bounded-last_n (room l) h a p) in
      let rest = push_all-last_n (push l a) (h ++ a ∷ []) new (rw (room-push l a) p) next in
      rw (append_assoc h (a ∷ []) new, room-push l a) at rest

  -- An empty log ends up with the newest of what was pushed.
  pub push_all-empty :
      (l : L) (new : List A)
      → 0 < room l
      → entries l ≡ []
      → entries (push_all l new) ≡ last_n (room l) new
  push_all-empty l new p e = push_all-last_n l [] new p (e ∙ sym (last_n-nil (room l)))
