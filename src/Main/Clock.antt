-- ===== src/Main/Clock.antt =====
-- The clock of the power supply, which the main loop sets once.
use riden_dongle.Base.{ℕ, ◌+◌, ◌<◌, ◌≡◌, refl, ◌∙◌, Bool, true, false, List, arith}
use mathlib.Core.Path.{subst}
use riden_dongle.Modbus.Env.{Env}
use riden_dongle.Modbus.State.{RidenModbus}
use riden_dongle.Modbus.Values.{Tm, tm_to_values}
use riden_dongle.Modbus.Settings.{set_clock}
use riden_dongle.Modbus.Raw.Device.{Answers, Ready, Does, updates, write_holding_registers_lem}
use riden_dongle.Modbus.Raw.Calls.{Ready-le}
use riden_dongle.Vxi.Net.{done, waiting, overrun, bind-done, modify}
use riden_dongle.Http.Output.{Sent}
use riden_dongle.Http.Board.{Board, modbus, call}
use riden_dongle.Http.Driven.{with_bus, call-Does}
use riden_dongle.Main.{Machine, Station, Arrival, on_dongle, update_time, loop, on_time_received}
use riden_dongle.Main.Flags.{
  After, After-done, Flags, loop-After, update_time-set, update_time-done,
}

module _ ⦃E : Env⦄ {B : Board E} {M : Machine E B} where
  -- The turns of the main loop that end, each with what has arrived, and the moments at which the time
  -- is received.
  pub data Steps (s : Station E B M) : Station E B M → Type 0 where
    stays : Steps s s
    turn :
        {t u : Station E B M} (polls rounds : ℕ) (arrival : Arrival) (sent : List (Sent E.Double))
        → Steps s t
        → loop polls rounds arrival t ≡ done sent u
        → Steps s u
    time_received : {t : Station E B M} → Steps s t → Steps s (on_time_received t)

  turn-Flags :
      (polls rounds : ℕ) (arrival : Arrival) (d : Bool) (sent : List (Sent E.Double))
      (s t : Station E B M)
      → Flags true true d s
      → loop polls rounds arrival s ≡ done sent t
      → Flags true true true t
  turn-Flags polls rounds arrival true sent s t p e =
      After-done (
        subst (After (Flags true true true)) e (loop-After polls rounds arrival true true true s p))
  turn-Flags polls rounds arrival false sent s t p e =
      After-done (
        subst (After (Flags true true true)) e
          (loop-After polls rounds arrival true true false s p))

  Steps-Flags : {s t : Station E B M} → Flags true true true s → Steps s t → Flags true true true t
  Steps-Flags p stays = p
  Steps-Flags p (turn polls rounds arrival sent before e) =
      turn-Flags polls rounds arrival true sent _ _ (Steps-Flags p before) e
  Steps-Flags p (time_received before) = let q = Steps-Flags p before in (q.0, refl, q.2)

  -- Once a turn of the main loop has ended on a station that is connected and has the time, then after
  -- whatever turns follow, and however often the time is received again, the part of the loop that sets
  -- the clock of the power supply does nothing; and the station is still connected.
  pub clock_once :
      (polls rounds : ℕ) (arrival : Arrival) (sent : List (Sent E.Double)) (s t u : Station E B M)
      → s.connected ≡ true
      → s.has_time ≡ true
      → loop polls rounds arrival s ≡ done sent t
      → Steps t u
      → (update_time u ≡ done tt u) × (u.connected ≡ true)
  clock_once polls rounds arrival sent s t u on has e steps =
      let q =
        Steps-Flags (turn-Flags polls rounds arrival s.did_update_time sent s t (on, has, refl) e)
          steps in
      (update_time-done u q.2, q.0)

module _ ⦃E : Env⦄ {timeout : ℕ} (d : Answers E timeout) where
  set_clock_lem :
      (time : Tm) (t : RidenModbus E)
      → Ready d 1 t
      → ((i : ℕ) → i < 6 → d.writable (48 + i) ≡ true)
      → Does d 1 (set_clock time) t tt (updates (d.regs t.bus) 48 (tm_to_values time))
  unfolding set_clock tm_to_values
  set_clock_lem time t r can = write_holding_registers_lem d 48 (tm_to_values time) t r can

module _ ⦃E : Env⦄ {B : Board E} {M : Machine E B} {timeout : ℕ} (d : Answers E timeout) where
  -- On a station that has the time and has not set the clock yet, with a connected power supply that
  -- answers in time and stores its six clock registers: the part of the loop that sets the clock ends,
  -- has written the parts of the local time to those registers and changed no other, and notes that the
  -- clock is set.
  pub clock_set :
      (s : Station E B M)
      → Ready d 1 (modbus s.dongle)
      → ((i : ℕ) → i < 6 → d.writable (48 + i) ≡ true)
      → s.has_time ≡ true
      → s.did_update_time ≡ false
      → (w : E.World) × (update_time s
          ≡ done tt (record s { dongle = with_bus w s.dongle; did_update_time = true }))
        × (E.server w ≡ false)
        × (d.regs w
            ≡ updates
                (d.regs (modbus s.dongle).bus)
                48
                (tm_to_values (M.local_time s.dongle.platform)))
  clock_set s r can has did =
      let time = M.local_time s.dongle.platform in
      let (w, run, r', same, idle) =
        call-Does d 1 0 (set_clock time) s.dongle (Ready-le d r (omega arith))
          (set_clock_lem d time (modbus s.dongle) r can) in
      (
        w,
        update_time-set s has did
            ∙ bind-done (on_dongle (call (set_clock time)))
                (λ result. modify (λ t. record t { did_update_time = true })) s
                (λ i. elim (run i) [
                  | done a t ↦ done a (record s { dongle = t })
                  | waiting ↦ waiting
                  | overrun ↦ overrun
                ]),
        idle,
        same,
      )
