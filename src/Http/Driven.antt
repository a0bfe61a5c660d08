-- ===== src/Http/Driven.antt =====
-- The requests that drive the output, with a power supply that answers in time.
use riden_dongle.Base.{
  ℕ, ◌+◌, ◌≡◌, refl, ◌∙◌, ap, Bool, true, false, not, List, [], ◌∷◌, none, some, ◌==◌,
  if◌then◌else◌, arith,
}
use riden_dongle.Modbus.Env.{Env}
use riden_dongle.Modbus.State.{RidenModbus, M, return}
use riden_dongle.Modbus.Values.{
  value_to_voltage, value_to_current, voltage_to_value, current_to_value,
}
use riden_dongle.Modbus.Raw.Device.{Answers, Ready, Does, slice, update, write_holding_register_lem}
use riden_dongle.Modbus.Raw.Calls.{Does-bind, Ready-bus, Ready-le}
use riden_dongle.Modbus.Access.{
  read_word, read_boolean, write_boolean, write_voltage, write_current,
}
use riden_dongle.Modbus.Access.Reads.{read_word_lem}
use riden_dongle.Modbus.Readings.{get_output_on, set_output_on, set_voltage_set, set_current_set}
use riden_dongle.Modbus.AllValues.{AllValues, get_all_values, decode_values}
use riden_dongle.Modbus.AllValues.Reading.{get_all_values_lem}
use riden_dongle.Vxi.Net.{done, Act, ◌>>=◌ as ◌>>>◌, bind-done}
use riden_dongle.Http.Output.{lit, Sent, send, send_content}
use riden_dongle.Http.Board.{Board, Dongle, Request, modbus, with_modbus, call, called}
use riden_dongle.Http.Control.{
  status_text, status_reply, handle_status_get, set_reply, handle_set_i, handle_set_v, toggle,
  toggle_reply, handle_toggle_out,
}

module _ {E : Env} {B : Board E} where
  abbrev pub with_bus : E.World → Dongle E B → Dongle E B
  with_bus w s = with_modbus (record (modbus s) { bus = w }) s

set_flag : (b : Bool) → not ((if b then 1 else 0) == 0) ≡ b
set_flag true = refl
set_flag false = refl

module _ ⦃E : Env⦄ where
  -- The readings of the register file.
  abbrev pub readings : RidenModbus E → (ℕ → ℕ) → AllValues E
  readings s regs = decode_values s (slice regs 0 43) none

module _ ⦃E : Env⦄ {timeout : ℕ} (d : Answers E timeout) where
  get_output_on_lem :
      (s : RidenModbus E)
      → Ready d 1 s
      → Does d 1 get_output_on s (not (d.regs s.bus 18 == 0)) (d.regs s.bus)
  unfolding get_output_on read_boolean
  get_output_on_lem s r =
      Does-bind d 1 (read_word 18) (λ value. return (not (value == 0))) s (read_word_lem d s r 18)
        (λ w. refl)

  set_output_on_lem :
      (on : Bool) (s : RidenModbus E)
      → Ready d 1 s
      → d.writable 18 ≡ true
      → Does d 1 (set_output_on on) s tt (update (d.regs s.bus) 18 (if on then 1 else 0))
  unfolding set_output_on write_boolean
  set_output_on_lem on s r can = write_holding_register_lem d 18 (if on then 1 else 0) s r can

  set_voltage_set_lem :
      (v : E.Double) (s : RidenModbus E)
      → Ready d 1 s
      → d.writable 8 ≡ true
      → Does d 1 (set_voltage_set v) s tt (update (d.regs s.bus) 8 (voltage_to_value s v))
  unfolding set_voltage_set write_voltage
  set_voltage_set_lem v s r can = write_holding_register_lem d 8 (voltage_to_value s v) s r can

  set_current_set_lem :
      (v : E.Double) (s : RidenModbus E)
      → Ready d 1 s
      → d.writable 9 ≡ true
      → Does d 1 (set_current_set v) s tt (update (d.regs s.bus) 9 (current_to_value s v))
  unfolding set_current_set write_current
  set_current_set_lem v s r can = write_holding_register_lem d 9 (current_to_value s v) s r can

module _ ⦃E : Env⦄ {B : Board E} {timeout : ℕ} (d : Answers E timeout) where
  open E use {Double}

  -- A call that the driver answers, and the object after it.
  pub call-Does {ℓ} :
      {A : Type ℓ} (n k : ℕ) (m : M E A) (s : Dongle E B) {v : A} {after : ℕ → ℕ}
      → Ready d (n + k) (modbus s)
      → Does d n m (modbus s) v after
      → (w : E.World) × (call m s ≡ done (some v) (with_bus w s))
        × Ready d k (modbus (with_bus w s))
        × (d.regs w ≡ after)
        × (E.server w ≡ false)
  call-Does n k m s r (w, run, idle, same, cost) =
      (w, ap (called s) run, Ready-bus d n k (modbus s) w r idle cost, same, idle)

  status_lem :
      (s : Dongle E B) (regs : ℕ → ℕ)
      → Ready d 120 (modbus s)
      → d.regs (modbus s).bus ≡ regs
      → (w : E.World) × (handle_status_get s
          ≡ done
              (send 200 "application/json"
                  (status_text B.platform (readings (modbus s) regs) (modbus s))
                ∷ send_content (lit "")
                ∷ [])
              (with_bus w s))
        × (E.server w ≡ false)
        × (d.regs w ≡ regs)
  unfolding handle_status_get
  status_lem s regs r e =
      let (w, run, r', same, idle) =
        call-Does 120 0 (get_all_values true) s (Ready-le d r (omega arith))
          (get_all_values_lem d true (modbus s) r) in
      (
        w,
        (λ i.
              if r.on i
              then (call (get_all_values true) >>> status_reply) s
              else status_reply none s)
            ∙ bind-done (call (get_all_values true)) status_reply s run
            ∙ ap
                (λ g.
                  done
                    (send 200 "application/json"
                        (status_text B.platform (readings (modbus s) g) (modbus s))
                      ∷ send_content (lit "")
                      ∷ [])
                    (with_bus w s))
                e,
        idle,
        same ∙ e,
      )

  -- `handle_toggle_out` on a dongle that is connected, with a power supply that answers in time and
  -- stores its output register: it returns, the register holds the opposite of what it held and no
  -- other one is changed, and the reply is the status with the readings of the registers as they are
  -- then, whose output is the opposite of what it was.
  pub toggle_out_lem :
      (s : Dongle E B)
      → Ready d 122 (modbus s)
      → d.writable 18 ≡ true
      → let regs = d.regs (modbus s).bus in
        let on = not (regs 18 == 0) in
        let later = update regs 18 (if not on then 1 else 0) in
        let av = readings (modbus s) later in
        (w : E.World) × (handle_toggle_out s
          ≡ done
              (send 200 "application/json" (status_text B.platform av (modbus s))
                ∷ send_content (lit "")
                ∷ [])
              (with_bus w s))
        × (E.server w ≡ false)
        × (d.regs w ≡ later)
        × (av.output_on ≡ not on)
  unfolding handle_toggle_out decode_values value_to_voltage value_to_current
  toggle_out_lem s r can =
      let regs = d.regs (modbus s).bus in
      let on = not (regs 18 == 0) in
      let (w₁, run₁, r₁, same₁, idle₁) =
        call-Does 1 121 get_output_on s r
          (get_output_on_lem d (modbus s) (Ready-le d r (omega arith))) in
      let s₁ = with_bus w₁ s in
      let (w₂, run₂, r₂, same₂, idle₂) =
        call-Does 1 120 (set_output_on (not on)) s₁ r₁
          (set_output_on_lem d (not on) (modbus s₁) (Ready-le d r₁ (omega arith)) can) in
      let (w₃, run₃, idle₃, same₃) =
        status_lem (with_bus w₂ s) _ r₂
          (same₂ ∙ ap (λ g. update g 18 (if not on then 1 else 0)) same₁) in
      (
        w₃,
        (λ i.
              if r.on i
              then toggle s
              else done (send 500 "text/plain" (lit "Not connected to power supply") ∷ []) s)
            ∙ bind-done (call get_output_on) _ s run₁
            ∙ bind-done (call (set_output_on (not on))) toggle_reply s₁ run₂
            ∙ run₃,
        idle₃,
        same₃,
        set_flag (not on),
      )

  -- A request sets one register, and is answered with OK.
  abbrev pub Sets : Act (Dongle E B) (List (Sent Double)) → Dongle E B → ℕ → ℕ → Type 0
  Sets m s a v =
      (w : E.World) × (m s ≡ done (send 200 "text/plain" (lit "OK") ∷ []) (with_bus w s))
      × (E.server w ≡ false)
      × (d.regs w ≡ update (d.regs (modbus s).bus) a v)

  set-Sets :
      (m : M E (Unit {0})) (s : Dongle E B) (a v : ℕ)
      → Ready d 1 (modbus s)
      → Does d 1 m (modbus s) tt (update (d.regs (modbus s).bus) a v)
      → Sets
          (λ t. if (modbus t).initialized then (call m >>> set_reply) t else set_reply none t)
          s
          a
          v
  set-Sets m s a v r h =
      let (w, run, r', same, idle) = call-Does 1 0 m s (Ready-le d r (omega arith)) h in
      (
        w,
        (λ i. if r.on i then (call m >>> set_reply) s else set_reply none s)
            ∙ bind-done (call m) set_reply s run,
        idle,
        same,
      )

  -- On a connected dongle, with a power supply that answers in time and stores the two registers:
  -- `handle_set_v` and `handle_set_i` return with OK, and have set the voltage or current of the request
  -- in its register and changed no other.
  pub set_lem :
      (request : Request) (s : Dongle E B)
      → Ready d 1 (modbus s)
      → d.writable 8 ≡ true
      → d.writable 9 ≡ true
      → let v = B.platform.strtod (request.arg "plain") in
        Sets (handle_set_v request) s 8 (voltage_to_value (modbus s) v)
        × Sets (handle_set_i request) s 9 (current_to_value (modbus s) v)
  unfolding handle_set_v handle_set_i
  set_lem request s r can_v can_i =
      let v = B.platform.strtod (request.arg "plain") in
      (
        set-Sets (set_voltage_set v) s 8 _ r (set_voltage_set_lem d v (modbus s) r can_v),
        set-Sets (set_current_set v) s 9 _ r (set_current_set_lem d v (modbus s) r can_i),
      )
