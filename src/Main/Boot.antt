-- ===== src/Main/Boot.antt =====
-- The loop of `setup` that waits for the power supply ends, whatever the power supply answers.
use riden_dongle.Base.{
  ℕ, zero, suc, ◌+◌, ◌-◌, ◌*◌, ◌%◌, ◌^◌, ◌≤◌, ◌<◌, ◌≡◌, refl, Bool, true, false, leb, if◌then◌else◌,
  arith,
}
use riden_dongle.Modbus.Env.{Env}
use riden_dongle.Modbus.State.{RidenModbus, Outcome, ok, fail, hung}
use riden_dongle.Modbus.Begin.Within.{Within, in_time, in_vain}
use riden_dongle.Modbus.Begin.Ends.{Passing, begin-Within}
use riden_dongle.Vxi.Net.{Run, done, waiting, overrun, Act}
use riden_dongle.Http.Board.{Board, Dongle, modbus, with_modbus, called}
use riden_dongle.Main.{Machine}
use riden_dongle.Main.Setup.{paused, retry, wait_for_supply, find_supply}

-- `delay` waits for as long as it says, and for `round` longer at most.
pub record Delays (E : Env) {B : Board E} (M : Machine E B) (round : ℕ) : Type 0 where
  pub passing : Passing E round
  pub delay :
      (ms : ℕ) (w : E.World)
      → E.millis w + ms + round < 2 ^ 32
      → (E.millis w + ms ≤ E.millis (M.pause ms w))
        × (E.millis (M.pause ms w) ≤ E.millis w + ms + round)

late_or_early :
    (x start : ℕ)
    → start ≤ x
    → x < 2 ^ 32
    → leb 5000 ((x + 2 ^ 32 - start) % 2 ^ 32) ≡ false
    → x < start + 5000
late_or_early x start le lt early = ground arith

module _ ⦃E : Env⦄ {B : Board E} (M : Machine E B) where
  -- It ends by a moment.
  abbrev pub EndsBy : ℕ → Run (Dongle E B) (Unit {0}) → Type 0
  EndsBy hi r = (t : Dongle E B) × (r ≡ done tt t) × (E.millis (modbus t).bus ≤ hi)

  EndsBy-if :
      (hi : ℕ) (b : Bool) (x y : Run (Dongle E B) (Unit {0}))
      → (b ≡ true → EndsBy hi x)
      → (b ≡ false → EndsBy hi y)
      → EndsBy hi (if b then x else y)
  EndsBy-if hi true x y h k = h refl
  EndsBy-if hi false x y h k = k refl

  -- One attempt, which is the last one after 5 seconds.
  attempt-EndsBy :
      (lo hi start limit : ℕ) (again : Act (Dongle E B) (Unit {0})) (s : Dongle E B)
      (o : Outcome (RidenModbus E) (Unit {0}))
      → start ≤ lo
      → hi < 2 ^ 32
      → Within lo hi limit o
      → ((t : RidenModbus E)
          → lo ≤ E.millis t.bus
          → E.millis t.bus < start + 5000
          → t.timeout ≡ limit
          → EndsBy hi (again (paused M 100 (with_modbus t s))))
      → EndsBy hi (elim (called s o) [
        | done a t ↦ retry M again start a t
        | waiting ↦ waiting
        | overrun ↦ overrun
      ])
  attempt-EndsBy lo hi start limit again s (ok a t) le room (in_time p q e) k =
      (with_modbus t s, refl, q)
  attempt-EndsBy lo hi start limit again s (fail t) le room (in_vain p q e) k =
      EndsBy-if hi (leb 5000 ((E.millis t.bus + 2 ^ 32 - start) % 2 ^ 32)) _ _
        (λ late. (with_modbus t s, refl, q))
        (λ early. k t p (late_or_early (E.millis t.bus) start (omega arith) (omega arith) early) e)
  attempt-EndsBy lo hi start limit again s hung le room h k = elim h [ ]

  wait-EndsBy :
      (round limit attempts start : ℕ) (s : Dongle E B)
      → Delays E M round
      → start + 5100 + 2 * limit + 6 * round < 2 ^ 32
      → start ≤ E.millis (modbus s).bus
      → E.millis (modbus s).bus ≤ start + 5100 + round
      → start + 5000 ≤ E.millis (modbus s).bus + 100 * attempts
      → (modbus s).timeout ≡ limit
      → EndsBy
          (start + 5100 + round + 2 * limit + 4 * round)
          (wait_for_supply M (suc attempts) start s)
  unfolding wait_for_supply
  wait-EndsBy round limit zero start s c room after before enough same =
      attempt-EndsBy (E.millis (modbus s).bus) _ start limit (wait_for_supply M zero start) s _
        after (omega arith)
        (begin-Within round (start + 5100 + round) limit s.config.uart_baudrate (modbus s) c.passing
          (omega arith) before same)
        (λ t p soon e. absurd (omega arith))
  wait-EndsBy round limit (suc attempts) start s c room after before enough same =
      attempt-EndsBy (E.millis (modbus s).bus) _ start limit
        (wait_for_supply M (suc attempts) start) s _ after (omega arith)
        (begin-Within round (start + 5100 + round) limit s.config.uart_baudrate (modbus s) c.passing
          (omega arith) before same)
        (λ t p soon e.
          let pause = c.delay 100 t.bus (omega arith) in
          wait-EndsBy round limit attempts start (paused M 100 (with_modbus t s)) c room
            (omega (arith, pause)) (omega (arith, pause)) (omega (arith, pause)) e)

  -- `delay` and the counter go as `Delays` says, and the counter has 5.1 seconds, two time limits of the
  -- driver and six rounds to go before it wraps: the loop that waits for the power supply ends within 51
  -- attempts, whatever the power supply answers and whether or not it does, and 5.1 seconds, two time
  -- limits and five rounds later at most.
  pub find_supply_ends :
      (round : ℕ) (s : Dongle E B)
      → Delays E M round
      → E.millis (modbus s).bus + 5100 + 2 * (modbus s).timeout + 6 * round < 2 ^ 32
      → (t : Dongle E B) × (find_supply M 51 s ≡ done tt t)
        × (E.millis (modbus t).bus
            ≤ E.millis (modbus s).bus + 5100 + 2 * (modbus s).timeout + 5 * round)
  find_supply_ends round s c room =
      let (t, run, time) =
        wait-EndsBy round (modbus s).timeout 50 (E.millis (modbus s).bus) s c room (omega arith)
          (omega arith) (omega arith) refl in
      (t, run, omega arith)
