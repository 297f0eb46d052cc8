-- ===== src/Alert/Sliding.antt =====
-- What alert.Throttler and alert.WindowCounter promise alike: for each key, the calls that pass
-- within a window before now are counted, and a call passes while they are fewer than the limit.
pub mod Bound
use portwatch.Base.{
  ◌≡◌, refl, ◌∙◌, ap, ℤ, pos, ◌+ℤ◌, ◌-ℤ◌, ◌≤ℤ◌, ltb_ℤ, List, [], ◌∷◌, ◌++◌, Text, text_eq,
  text_beq_iff, Bool, true, false, ◌&&◌, ◌==◌, if◌then◌else◌, arith, Bool-cases, inl, inr, keep,
  length, keep-append, -ℤ_parts, append-nil,
}

-- `t.After(cutoff)`
abbrev pub after : ℤ → ℤ → Bool
after cutoff t = ltb_ℤ cutoff t

abbrev pub recent : ℤ → ℤ → List ℤ → List ℤ
recent window now times = keep (after (now -ℤ window)) times

abbrev pub has_room : ℤ → List ℤ → Bool
has_room limit times = ltb_ℤ (pos (length times)) limit

pub record SlidingGate (G : Type 0) : Type 0 where
  pub allow : G → ℤ → Text → G × Bool
  pub window : G → ℤ
  pub limit : G → ℤ
  pub held : Text → G → List ℤ
  pub allow_decides :
      (g : G) (now : ℤ) (k : Text)
      → (allow g now k).1 ≡ has_room (limit g) (recent (window g) now (held k g))
  pub held-allow :
      (g : G) (now : ℤ) (k j : Text)
      → held j (allow g now k).0 ≡ (
          if k == j
          then recent (window g) now (held k g) ++ (if (allow g now k).1 then now ∷ [] else [])
          else held j g)
  pub window-allow : (g : G) (now : ℤ) (k : Text) → window (allow g now k).0 ≡ window g
  pub limit-allow : (g : G) (now : ℤ) (k : Text) → limit (allow g now k).0 ≡ limit g

-- The reference forgets nothing: of the times at which a key is asked for, keep each before which
-- fewer than `limit` of all those kept so far lie within the window.
pub slide : ℤ → ℤ → List ℤ → List ℤ → List ℤ
slide window limit kept [] = []
slide window limit kept (now ∷ times) =
    let pass = now ∷ slide window limit (kept ++ now ∷ []) times in
    let hold = slide window limit kept times in
    if has_room limit (recent window now kept) then pass else hold

abbrev pub asked : Text → List (ℤ × Text) → List ℤ
asked k [] = []
asked k ((now, j) ∷ calls) = if j == k then now ∷ asked k calls else asked k calls

-- The clock does not go back.
abbrev pub Ascending : ℤ → List (ℤ × Text) → Type 0
Ascending t [] = Unit {0}
Ascending t ((now, j) ∷ calls) = (t ≤ℤ now) × Ascending now calls

-- A later cutoff undoes an earlier one.
keep_later :
    (c d : ℤ) (times : List ℤ)
    → c ≤ℤ d
    → keep (after d) (keep (after c) times) ≡ keep (after d) times
keep_later c d [] h = refl
keep_later c d (t ∷ times) h = ground (arith, keep_later c d times h)

-- Past the cutoff of time `t`, what is held and what was kept are the same.
abbrev pub Agrees : ℤ → List ℤ → List ℤ → Type 0
Agrees cutoff held kept = (c : ℤ) → cutoff ≤ℤ c → keep (after c) held ≡ keep (after c) kept

pub Agrees-append :
    (c d : ℤ) (held kept new : List ℤ)
    → c ≤ℤ d
    → Agrees c held kept
    → Agrees d (keep (after d) held ++ new) (kept ++ new)
Agrees-append c d held kept new h agree e le = rw (
  keep-append (after e) (keep (after d) held) new,
  keep-append (after e) kept new,
  keep_later d e held le,
  agree e (omega arith),
)

pub Agrees-later : (c d : ℤ) (held kept : List ℤ) → c ≤ℤ d → Agrees c held kept → Agrees d held kept
Agrees-later c d held kept h agree e le = agree e (omega arith)

module _ {G : Type 0} (gate : SlidingGate G) where
  open gate use {allow, window, limit, held, allow_decides, held-allow, window-allow, limit-allow}

  -- The times at which calls for a key pass, the calls made in order.
  pub granted : G → Text → List (ℤ × Text) → List ℤ
  granted g k [] = []
  granted g k ((now, j) ∷ calls) =
      let rest = granted (allow g now j).0 k calls in
      if (allow g now j).1 && (j == k) then now ∷ rest else rest

  abbrev pub next_kept : G → Text → ℤ → Text → List ℤ → List ℤ
  next_kept g k now j kept = kept ++ (if (allow g now j).1 && (j == k) then now ∷ [] else [])

  held_same :
      (g : G) (k : Text) (now : ℤ) (j : Text)
      → (j == k) ≡ true
      → held k (allow g now j).0
        ≡ recent (window g) now (held k g)
          ++ (if (allow g now j).1 && (j == k) then now ∷ [] else [])
  held_same g k now j e = ground (arith, held-allow g now j k, text_beq_iff j k)

  held_other :
      (g : G) (k : Text) (now : ℤ) (j : Text)
      → (j == k) ≡ false
      → held k (allow g now j).0 ≡ held k g
  held_other g k now j e = ground (arith, held-allow g now j k)

  pub next-Agrees :
      (g : G) (k : Text) (t now : ℤ) (j : Text) (kept : List ℤ)
      → t ≤ℤ now
      → Agrees (t -ℤ window g) (held k g) kept
      → Agrees (now -ℤ window g) (held k (allow g now j).0) (next_kept g k now j kept)
  next-Agrees g k t now j kept le agree = elim (Bool-cases (j == k)) [
    | inl same ↦ rw (held_same g k now j same) (
        Agrees-append (t -ℤ window g) (now -ℤ window g) (held k g) kept
          (if (allow g now j).1 && (j == k) then now ∷ [] else [])
          (omega (arith, -ℤ_parts t (window g), -ℤ_parts now (window g))) agree)
    | inr other ↦ rw (held_other g k now j other) (λ c h. ground (
      arith,
      other,
      append-nil kept,
      agree c (omega (arith, -ℤ_parts t (window g), -ℤ_parts now (window g))),
    ))
  ]

  -- From any gate that holds what matters of the calls kept so far.
  granted_from :
      (g : G) (k : Text) (t : ℤ) (kept : List ℤ) (calls : List (ℤ × Text))
      → Ascending t calls
      → Agrees (t -ℤ window g) (held k g) kept
      → granted g k calls ≡ slide (window g) (limit g) kept (asked k calls)
  unfolding granted slide
  granted_from g k t kept [] asc agree = refl
  granted_from g k t kept ((now, j) ∷ calls) (le, asc) agree =
      let g' = (allow g now j).0 in
      let later : Agrees (now -ℤ window g') (held k g') (next_kept g k now j kept) =
        rw (window-allow g now j) (next-Agrees g k t now j kept le agree) in
      let ih = granted_from g' k now (next_kept g k now j kept) calls asc later in
      let same : recent (window g) now (held k g) ≡ recent (window g) now kept =
        agree (now -ℤ window g) (omega (arith, -ℤ_parts t (window g), -ℤ_parts now (window g))) in
      ground (
        arith,
        ih,
        same,
        append-nil kept,
        allow_decides g now j,
        window-allow g now j,
        limit-allow g now j,
        text_beq_iff j k,
      )

  -- While the clock does not go back, a gate that starts with nothing held lets through, for each
  -- key, exactly what the reference keeps: the times that it has pruned do not matter.
  pub granted-eq-slide :
      (g : G) (k : Text) (t : ℤ) (calls : List (ℤ × Text))
      → Ascending t calls
      → held k g ≡ []
      → granted g k calls ≡ slide (window g) (limit g) [] (asked k calls)
  granted-eq-slide g k t calls asc e =
      granted_from g k t [] calls asc (λ c h. ap (keep (after c)) e)
