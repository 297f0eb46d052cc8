-- ===== src/Alert/Cache/Memory.antt =====
-- What the methods of the cache keep of a memory that forgets nothing.
use portwatch.Base.{
  stored, ◌≡◌, refl, ◌∙◌, ℤ, ◌+ℤ◌, ◌≤ℤ◌, leb_ℤ, List, [], ◌∷◌, Text, text_eq, ◌==◌, Map, lookup,
  delete, lookup-insert, lookup-delete, Bool, true, false, not, Option, none, some, Bool-cases,
  Option-cases, inl, inr, arith, text_beq_iff,
}
use portwatch.Alert.Cache.{
  CacheEntry, ResponseCache, is_expired, hit, evict_one, record_key, make_room,
}

-- Whether a lookup finds an entry that has not expired.
abbrev pub is_live : Option CacheEntry → ℤ → Bool
is_live none now = false
is_live (some e) now = not (is_expired now e)

-- When each key was last recorded.
abbrev pub Memory : Type 0
Memory = Text → Option ℤ

abbrev pub is_kept : ℤ → Option ℤ → ℤ → Bool
is_kept ttl none now = false
is_kept ttl (some t) now = leb_ℤ now (t +ℤ ttl)

-- From `now` on the cache answers as the memory does.
pub record Tracks (ttl now : ℤ) (c : ResponseCache) (m : Memory) : Type 0 where
  pub policy : c.policy.ttl ≡ ttl
  pub agrees :
      (k : Text) (later : ℤ)
      → now ≤ℤ later
      → is_live (lookup k c.entries) later ≡ is_kept ttl (m k) later

is_live-delete :
    (now later : ℤ) (e : CacheEntry) (key k : Text) (entries : Map Text CacheEntry)
    → lookup key entries ≡ some e
    → is_expired now e ≡ true
    → now ≤ℤ later
    → is_live (lookup k (delete key entries)) later ≡ is_live (lookup k entries) later
is_live-delete now later e key k entries found old h = elim (Bool-cases (key == k)) [
  | inl same ↦
      let there : lookup k entries ≡ some e = rw (← (text_beq_iff key k).0 same) found in
      rw (lookup-delete key k entries, same, there) (ground (arith, old, h))
  | inr other ↦ rw (lookup-delete key k entries, other) refl
]

is_live-evict_one :
    (now later : ℤ) (keys : List Text) (k : Text) (entries : Map Text CacheEntry)
    → now ≤ℤ later
    → is_live (lookup k (evict_one now keys entries)) later ≡ is_live (lookup k entries) later
unfolding evict_one
is_live-evict_one now later [] k entries h = refl
is_live-evict_one now later (key ∷ keys) k entries h = elim (Option-cases (lookup key entries)) [
  | inl missing ↦ rw (missing, evict_one) (is_live-evict_one now later keys k entries h)
  | inr (e, found) ↦ elim (Bool-cases (is_expired now e)) [
    | inl old ↦ rw (found, old, evict_one) (is_live-delete now later e key k entries found old h)
    | inr live ↦ rw (found, live, evict_one) (is_live-evict_one now later keys k entries h)
  ]
]

pub Tracks-later :
    (ttl now later : ℤ) (c : ResponseCache) (m : Memory)
    → now ≤ℤ later
    → Tracks ttl now c m
    → Tracks ttl later c m
Tracks-later ttl now later c m h t = record {
  policy = t.policy;
  agrees = λ k l hl. t.agrees k l (omega (arith, h, hl));
}

pub hit-is_kept :
    (ttl now : ℤ) (c : ResponseCache) (m : Memory) (key : Text)
    → Tracks ttl now c m
    → (hit c now key).1 ≡ is_kept ttl (m key) now
unfolding hit
hit-is_kept ttl now c m key t = ground (arith, t.agrees key now)

pub hit-Tracks :
    (ttl now : ℤ) (c : ResponseCache) (m : Memory) (key : Text)
    → Tracks ttl now c m
    → Tracks ttl now (hit c now key).0 m
unfolding hit
hit-Tracks ttl now c m key t = elim (Option-cases (lookup key c.entries)) [
  | inl missing ↦ rw (missing, hit) t
  | inr (e, found) ↦ elim (Bool-cases (is_expired now e)) [
    | inl old ↦
        rw (found, old, hit)
          (record {
            policy = t.policy;
            agrees = λ k later h.
                is_live-delete now later e key k c.entries found old h ∙ t.agrees k later h;
          })
    | inr live ↦ rw (found, live, hit) t
  ]
]

is_live-make_room :
    (order : Map Text CacheEntry → List Text) (now later : ℤ) (c : ResponseCache) (k : Text)
    → now ≤ℤ later
    → is_live (lookup k (make_room order c now)) later ≡ is_live (lookup k c.entries) later
unfolding make_room
is_live-make_room order now later c k h =
    ground (arith, is_live-evict_one now later (order c.entries) k c.entries)

pub record_key-Tracks :
    (order : Map Text CacheEntry → List Text) (ttl now at : ℤ) (c : ResponseCache) (m : Memory)
    → (key : Text) → now ≤ℤ at
    → Tracks ttl now c m
    → Tracks ttl at (record_key order c now at key) (stored m key (some at))
unfolding record_key
record_key-Tracks order ttl now at c m key ha t = record {
  policy = t.policy;
  agrees = λ k later h.
      let e : CacheEntry = record { expires_at = at +ℤ c.policy.ttl } in
      let old =
        is_live-make_room order now later c k (omega (arith, ha, h))
        ∙ t.agrees k later (omega (arith, ha, h)) in
      elim (Bool-cases (key == k)) [
        | inl same ↦
            rw (lookup-insert key k e (make_room order c now), same, t.policy) (ground arith)
        | inr other ↦ rw (lookup-insert key k e (make_room order c now), other) old
      ];
}
