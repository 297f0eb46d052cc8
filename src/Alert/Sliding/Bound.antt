-- ===== src/Alert/Sliding/Bound.antt =====
-- How many times the reference keeps in any window.
use portwatch.Base.{
  ◌≤◌, ◌≡◌, ℤ, pos, ◌+ℤ◌, ◌≤ℤ◌, ltb_ℤ, leb_ℤ, List, [], ◌∷◌, ◌++◌, true, ◌&&◌, arith, Bool-cases,
  inl, inr, keep, length, keep-append, length-append, -ℤ_parts, +ℤ_parts, append_assoc, append-nil,
}
use portwatch.Alert.Sliding.{recent, has_room, slide}

-- Of the times, those after `c` and no later than a window after it.
abbrev pub within : ℤ → ℤ → List ℤ → List ℤ
within window c times = keep (λ t. ltb_ℤ c t && leb_ℤ t (c +ℤ window)) times

within-le-recent :
    (window c now : ℤ) (times : List ℤ)
    → now ≤ℤ c +ℤ window
    → length (within window c times) ≤ length (recent window now times)
within-le-recent window c now [] h = omega arith
within-le-recent window c now (t ∷ times) h =
    ground (arith, within-le-recent window c now times h, -ℤ_parts now window, +ℤ_parts c window)

-- One more time that has room stays within the limit, wherever the window lies.
within-append :
    (window limit c now : ℤ) (kept : List ℤ)
    → pos (length (within window c kept)) ≤ℤ limit
    → has_room limit (recent window now kept) ≡ true
    → pos (length (within window c (kept ++ now ∷ []))) ≤ℤ limit
within-append window limit c now kept h room = ground (
  arith,
  keep-append (λ t. ltb_ℤ c t && leb_ℤ t (c +ℤ window)) kept (now ∷ []),
  length-append (within window c kept) (within window c (now ∷ [])),
  within-le-recent window c now kept,
)

slide_from-within :
    (window limit c : ℤ) (kept times : List ℤ)
    → pos (length (within window c kept)) ≤ℤ limit
    → pos (length (within window c (kept ++ slide window limit kept times))) ≤ℤ limit
unfolding slide
slide_from-within window limit c kept [] h = rw append-nil h
slide_from-within window limit c kept (now ∷ times) h =
    elim (Bool-cases (has_room limit (recent window now kept))) [
      | inl room ↦
          rw (room, ← append_assoc kept (now ∷ []) (slide window limit (kept ++ now ∷ []) times))
            (slide_from-within window limit c (kept ++ now ∷ []) times
              (within-append window limit c now kept h room))
      | inr full ↦ rw full (slide_from-within window limit c kept times h)
    ]

-- No window of that length, wherever it lies, holds more of the kept times than the limit.
pub slide-within :
    (window limit c : ℤ) (times : List ℤ)
    → pos 0 ≤ℤ limit
    → pos (length (within window c (slide window limit [] times))) ≤ℤ limit
slide-within window limit c times h = slide_from-within window limit c [] times h
