-- ===== src/Modbus/Begin/Identify.antt =====
-- Which power supplies `begin` recognises, and what it leaves behind.
use riden_dongle.Base.{
  ℕ, ◌≤◌, ◌<◌, ◌≡◌, refl, ◌∙◌, ap, ◌⊎◌, inl, inr, true, false, if◌then◌else◌, List, arith,
}
use riden_dongle.Modbus.Env.{Env}
use riden_dongle.Modbus.State.{RidenModbus, ok, fail, after, bind-fail}
use riden_dongle.Modbus.Raw.{
  read_holding_registers, write_holding_register, write_holding_registers, wait_for_inactive,
  request,
}
use riden_dongle.Modbus.Raw.Device.{Answers, Ready}
use riden_dongle.Modbus.Access.Reads.{read_word_lem}
use riden_dongle.Modbus.Readings.{get_id}
use riden_dongle.Modbus.Begin.{identify, start_begin, finish_begin, begin}

-- The ids of the supported models.
abbrev pub Known : ℕ → Type 0
Known id =
    ((60060 ≤ id) × (id ≤ 60065))
    ⊎ ((60120 ≤ id) × (id ≤ 60129))
    ⊎ ((60180 ≤ id) × (id ≤ 60189))
    ⊎ (60241 ≤ id)

Known-or_not : (id : ℕ) → Known id ⊎ (¬ Known id)
Known-or_not id = omega arith

module _ ⦃E : Env⦄ where
  identify-Known :
      (id : ℕ) (s : RidenModbus E)
      → s.initialized ≡ false
      → (Known id
          → (identify id s ≡ ok tt (after (identify id s) s))
            × ((after (identify id s) s).initialized ≡ true)
            × ((after (identify id s) s).bus ≡ s.bus)
            × ((after (identify id s) s).timeout ≡ s.timeout))
        × (¬ Known id → identify id s ≡ fail s)
  unfolding identify
  identify-Known id s off = (λ k. ground arith, λ k. ground arith)

  -- On an object that is not initialised every transfer returns false and sends nothing.
  transfers_refuse :
      (s : RidenModbus E) (start n value : ℕ) (values : List ℕ)
      → s.initialized ≡ false
      → (read_holding_registers start n s ≡ fail s)
        × (write_holding_register start value s ≡ fail s)
        × (write_holding_registers start values s ≡ fail s)
  unfolding read_holding_registers write_holding_register write_holding_registers wait_for_inactive
  transfers_refuse s start n value values off = (
    bind-fail wait_for_inactive _ s refused,
    bind-fail wait_for_inactive _ s refused,
    bind-fail wait_for_inactive _ s refused,
  )
    where
      refused : wait_for_inactive s ≡ fail s
      refused = rw off

  abbrev begun : ℕ → RidenModbus E → E.World → RidenModbus E
  begun baud s w = record s {
    bus = w;
    initialized = false;
    v_max = E.literal 601 1;
    i_max = E.literal 60 1;
  }

module _ ⦃E : Env⦄ {timeout : ℕ} (d : Answers E timeout) where
  begin-identify :
      (baud n : ℕ) (s : RidenModbus E)
      → s.initialized ≡ false
      → s.timeout ≡ timeout
      → (E.begin_serial baud s.bus).0 ≡ true
      → E.server (E.begin_serial baud s.bus).1 ≡ false
      → n < d.budget (E.begin_serial baud s.bus).1
      → (w : E.World) × (begin baud s
          ≡ identify (d.regs (E.begin_serial baud s.bus).1 0) (begun baud s w))
        × (E.server w ≡ false)
        × (n ≤ d.budget w)
  unfolding begin get_id
  begin-identify baud n s off limit starts quiet room =
      let (w, run, idle, same, cost) = read_word_lem d started ready 0 in
      (
        w,
        (λ i. if off i then ok tt s else start_begin (request (E.begin_serial baud) s))
            ∙ ap start_begin {y = ok tt (record s { bus = (E.begin_serial baud s.bus).1 })}
                (rw starts)
            ∙ ap finish_begin run,
        idle,
        omega arith,
      )
    where
      started : RidenModbus E
      started = record s { bus = (E.begin_serial baud s.bus).1; initialized = true }

      ready : Ready d 1 started
      ready = record { on = refl; idle = quiet; limit = limit; left = omega arith }

  -- With a power supply that answers in time, on an object that is not initialised and a serial port
  -- that starts: either its id is a known one, `begin` returns true and leaves the object ready, with
  -- one request used up; or the id is not, `begin` returns false, and every later transfer of the
  -- object that it leaves returns false too.
  pub begin_recognises :
      (baud n : ℕ) (s : RidenModbus E)
      → s.initialized ≡ false
      → s.timeout ≡ timeout
      → (E.begin_serial baud s.bus).0 ≡ true
      → E.server (E.begin_serial baud s.bus).1 ≡ false
      → n < d.budget (E.begin_serial baud s.bus).1
      → let id = d.regs (E.begin_serial baud s.bus).1 0 in
        (Known id × (t : RidenModbus E) × (begin baud s ≡ ok tt t) × Ready d n t)
        ⊎ (¬ Known id
            × (t : RidenModbus E) × (begin baud s ≡ fail t)
            × ((start n value : ℕ) (values : List ℕ)
                → (read_holding_registers start n t ≡ fail t)
                  × (write_holding_register start value t ≡ fail t)
                  × (write_holding_registers start values t ≡ fail t)))
  begin_recognises baud n s off limit starts quiet room =
      let id = d.regs (E.begin_serial baud s.bus).1 0 in
      let (w, run, idle, left) = begin-identify baud n s off limit starts quiet room in
      let (found, missing) = identify-Known id (begun baud s w) refl in
      elim (Known-or_not id) [
        | inl k ↦
            let (eq, on, bus, same) = found k in
            inl (
              k,
              after (identify id (begun baud s w)) (begun baud s w),
              run ∙ eq,
              record {
                on = on;
                idle = ap E.server bus ∙ idle;
                limit = same ∙ limit;
                left = rw bus left;
              },
            )
        | inr k ↦ inr (
          k,
          begun baud s w,
          run ∙ missing k,
          λ start n value values. transfers_refuse (begun baud s w) start n value values refl,
        )
      ]
