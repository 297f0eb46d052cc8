-- ===== src/Alert/LoadShed/Steps.antt =====
-- A load shedder shared by any number of calls, whose changes of the counter interleave.
use portwatch.Base.{ℕ, suc, ◌+◌, ◌≡◌, pos, negsuc, ◌≤ℤ◌, true, false}
use portwatch.Alert.LoadShed.{ShedPolicy, LoadShedder, new_load_shedder, add, exceeds, release}

-- The shedder, the calls that hold a slot, and those that have found the limit exceeded and
-- have not yet taken their own addition back.
pub record Shared : Type 0 where
  pub shedder : LoadShedder
  pub holding : ℕ
  pub undoing : ℕ

-- The atomic steps of the calls.
pub data Step (s : Shared) : Shared → Type 0 where
  enter :
      exceeds (add s.shedder (pos 1)) ≡ false
      → Step s
          (record { shedder = add s.shedder (pos 1); holding = suc s.holding; undoing = s.undoing })
  exceed :
      exceeds (add s.shedder (pos 1)) ≡ true
      → Step s
          (record { shedder = add s.shedder (pos 1); holding = s.holding; undoing = suc s.undoing })
  take_back :
      (k : ℕ)
      → s.undoing ≡ suc k
      → Step s (record { shedder = add s.shedder (negsuc 0); holding = s.holding; undoing = k })
  leave :
      (k : ℕ)
      → s.holding ≡ suc k
      → Step s (record { shedder = release s.shedder; holding = k; undoing = s.undoing })

pub data Run (s : Shared) : Shared → Type 0 where
  start : Run s s
  next : {t u : Shared} → Run s t → Step t u → Run s u

abbrev pub idle : ShedPolicy → Shared
idle p = record { shedder = new_load_shedder p; holding = 0; undoing = 0 }

record IsValid (p : ShedPolicy) (s : Shared) : Type 0 where
  policy : s.shedder.policy ≡ (new_load_shedder p).policy
  counted : s.shedder.inflight ≡ pos (s.holding + s.undoing)
  bounded : pos s.holding ≤ℤ s.shedder.policy.max_in_flight
