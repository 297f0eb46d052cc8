-- ===== src/Daemon/Loop.antt =====
-- How often the loop of the daemon ticks, and what it returns.
use portwatch.Base.{ℕ, zero, suc, ◌≡◌, refl, ℤ, List, [], ◌∷◌, Text, Option, none, some}
use portwatch.Alert.Notification.{Error}
use portwatch.Action.{Action, PortActions}
use portwatch.Daemon.{Polled, Verdict, Wake, ticked, ctx_done, tick, wait_loop}

-- The error of the context at its first end, and the ticks before that.
abbrev pub first_end : List Wake → Option Error
first_end [] = none
first_end (ticked ∷ wakes) = first_end wakes
first_end (ctx_done e ∷ wakes) = some e

abbrev pub ticks : List Wake → ℕ
ticks [] = 0
ticks (ticked ∷ wakes) = suc (ticks wakes)
ticks (ctx_done e ∷ wakes) = 0

module _ {E W T : Type 0} (webhook script : Action → ℤ → Text → W → Option E × W)
    (update : Text → ℤ → Text → T → Verdict × T) (cfg : List PortActions)
    (poll_all : W → List Polled × W) where
  unfoldable pub tick_times : ℕ → T → W → T × W
  tick_times zero t w = (t, w)
  tick_times (suc n) t w =
      let (t', w') = tick webhook script update cfg poll_all t w in tick_times n t' w'

  pub wait_loop-tick_times :
      (wakes : List Wake) (t : T) (w : W)
      → wait_loop webhook script update cfg poll_all wakes t w
        ≡ (first_end wakes, tick_times (ticks wakes) t w)
  unfolding wait_loop tick_times
  wait_loop-tick_times [] t w = refl
  wait_loop-tick_times (ticked ∷ wakes) t w =
      let (t', w') = tick webhook script update cfg poll_all t w in wait_loop-tick_times wakes t' w'
  wait_loop-tick_times (ctx_done e ∷ wakes) t w = refl
