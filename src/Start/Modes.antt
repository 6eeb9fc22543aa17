-- ===== src/Start/Modes.antt =====
-- The alternation of the two modes.
use lavoro_l.Base.{
  ℕ, zero, suc, ◌≤◌, ◌≡◌, refl, Bool, true, false, some, List, [], ◌∷◌, arith, length,
}
use lavoro_l.Start.{Mode, screen, console, run_modes}

module _ {W : Type 0} (screen_mode console_mode : W → Bool × W) where
  -- The screen first, then the console, and so on up to the first mode that answers false.
  pub data Runs : W → List Mode → W → Type 0 where
    left_screen : {w w' : W} → screen_mode w ≡ (false, w') → Runs w (screen ∷ []) w'
    left_console :
        {w w1 w' : W}
        → screen_mode w ≡ (true, w1)
        → console_mode w1 ≡ (false, w')
        → Runs w (screen ∷ console ∷ []) w'
    again :
        {w w1 w2 w' : W} {ms : List Mode}
        → screen_mode w ≡ (true, w1)
        → console_mode w1 ≡ (true, w2)
        → Runs w2 ms w'
        → Runs w (screen ∷ console ∷ ms) w'

  -- Where the modes, taken in turn from the screen on, come to one that answers false, `efi_main`
  -- ends just there, having run just these modes in this order. The fuel is any number from that of
  -- the modes on.
  pub run_modes_lem :
      (fuel : ℕ) {w w' : W} {ms : List Mode}
      → Runs w ms w'
      → length ms ≤ fuel
      → run_modes screen_mode console_mode fuel w ≡ some (ms, w')
  unfolding run_modes
  run_modes_lem zero (left_screen s) l = absurd (omega arith)
  run_modes_lem zero (left_console s c) l = absurd (omega arith)
  run_modes_lem zero (again s c r) l = absurd (omega arith)
  run_modes_lem (suc fuel) (left_screen s) l = rw s refl
  run_modes_lem (suc fuel) (left_console s c) l = rw (s, c) refl
  run_modes_lem (suc fuel) (again s c r) l = rw (s, c, run_modes_lem fuel r (omega arith)) refl
