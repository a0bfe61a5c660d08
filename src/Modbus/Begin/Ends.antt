-- ===== src/Modbus/Begin/Ends.antt =====
-- `begin` of the driver ends, in a time that is known, whatever the power supply answers.
use riden_dongle.Base.{
  ℕ, zero, suc, ◌+◌, ◌*◌, ◌%◌, ◌^◌, ◌≤◌, ◌<◌, ◌≡◌, refl, inl, inr, Bool, true, get_or, ◌==◌, leb,
  ltb, ltb-false, Bool-cases, arith,
}
use riden_dongle.Modbus.Env.{Env}
use riden_dongle.Modbus.State.{RidenModbus, Outcome, ok, fail, hung, ◌>>=◌, return}
use riden_dongle.Modbus.Raw.{
  wait_loop, wait_for_inactive, request, received, read_holding_registers,
}
use riden_dongle.Modbus.Raw.Wait.{Clocked}
use riden_dongle.Modbus.Access.{read_word}
use riden_dongle.Modbus.Readings.{get_id}
use riden_dongle.Modbus.Begin.{within, identify, start_begin, finish_begin, begin}
use riden_dongle.Modbus.Begin.Within.{
  Within, in_time, in_vain, Within-bind, Within-weaken, Within-if,
}

-- The counter goes forward in every call of the driver, by `round` at most in each, while it does not wrap.
pub record Passing (E : Env) (round : ℕ) : Type 0 where
  pub clocked : Clocked E round
  pub read_forward :
      (a n : ℕ) (w : E.World)
      → E.millis w + round < 2 ^ 32
      → E.millis w ≤ E.millis (E.read_hreg a n w).1
  pub serial_forward :
      (baud : ℕ) (w : E.World)
      → E.millis w + round < 2 ^ 32
      → (E.millis w ≤ E.millis (E.begin_serial baud w).1)
        × (E.millis (E.begin_serial baud w).1 ≤ E.millis w + round)

module _ ⦃E : Env⦄ where
  wait_loop-Within :
      (round fuel lo wait_until : ℕ) (s : RidenModbus E)
      → Clocked E round
      → wait_until + round < 2 ^ 32
      → lo ≤ E.millis s.bus
      → E.millis s.bus ≤ wait_until
      → wait_until < E.millis s.bus + fuel
      → Within lo (wait_until + round) s.timeout (wait_loop fuel wait_until s)
  unfolding wait_loop
  wait_loop-Within round zero lo wait_until s c nowrap after early enough = absurd (omega arith)
  wait_loop-Within round (suc fuel) lo wait_until s c nowrap after early enough =
      elim (Bool-cases (E.server s.bus)) [
        | inr idle ↦ rw idle (in_time after (omega arith) refl)
        | inl busy ↦
            let step = c.forward s.bus (omega arith) in
            elim (Bool-cases (ltb wait_until (E.millis (E.tick s.bus)))) [
              | inl late ↦
                  rw (busy, late) (in_vain (omega (arith, step)) (omega (arith, step)) refl)
              | inr more ↦
                  rw (busy, more)
                    (wait_loop-Within round fuel lo wait_until (record s { bus = E.tick s.bus }) c
                      nowrap (omega (arith, step)) (ltb-false _ _ more) (omega (arith, step)))
            ]
      ]

  wait_for_inactive-Within :
      (round lo mid limit : ℕ) (s : RidenModbus E)
      → Clocked E round
      → mid + limit + round < 2 ^ 32
      → lo ≤ E.millis s.bus
      → E.millis s.bus ≤ mid
      → s.timeout ≡ limit
      → Within lo (mid + limit + round) limit (wait_for_inactive s)
  unfolding wait_for_inactive
  wait_for_inactive-Within round lo mid limit s c room after before same =
      Within-if s.initialized _ _
        (λ on. rw end (
          Within-weaken _ (omega arith) same (
            wait_loop-Within round (suc s.timeout) lo (E.millis s.bus + s.timeout) s c (omega arith)
              after (omega arith) (omega arith))))
        (λ off. in_vain after (omega arith) same)
    where
      end : (E.millis s.bus + s.timeout) % 2 ^ 32 ≡ E.millis s.bus + s.timeout
      end = omega arith

  request-Within :
      (lo hi limit : ℕ) (s : RidenModbus E) (call : E.World → Bool × E.World)
      → lo ≤ E.millis (call s.bus).1
      → E.millis (call s.bus).1 ≤ hi
      → s.timeout ≡ limit
      → Within lo hi limit (request call s)
  request-Within lo hi limit s call p q e =
      Within-if (call s.bus).0 _ _ (λ taken. in_time p q e) (λ refused. in_vain p q e)

  read-Within :
      (round lo mid limit a n : ℕ) (s : RidenModbus E)
      → Passing E round
      → mid + 2 * limit + 3 * round < 2 ^ 32
      → lo ≤ E.millis s.bus
      → E.millis s.bus ≤ mid
      → s.timeout ≡ limit
      → Within lo (mid + 2 * limit + 3 * round) limit (read_holding_registers a n s)
  unfolding read_holding_registers
  read-Within round lo mid limit a n s c room after before same =
      let last = mid + 2 * limit + 3 * round in
      Within-bind lo (mid + limit + round) last limit wait_for_inactive
        (λ _. request (E.read_hreg a n) >>= λ _. wait_for_inactive >>= λ _. received) s
        (omega arith)
        (wait_for_inactive-Within round lo mid limit s c.clocked (omega arith) after before same)
        (λ _ t p q e.
          Within-bind lo (mid + limit + 2 * round) last limit (request (E.read_hreg a n))
            (λ _. wait_for_inactive >>= λ _. received) t (omega arith)
            (request-Within lo _ limit t (E.read_hreg a n)
              (omega (arith, c.read_forward a n t.bus (omega arith)))
              (omega (arith, c.clocked.read_time a n t.bus)) e)
            (λ _ u p q e.
              Within-bind lo last last limit wait_for_inactive (λ _. received) u (omega arith)
                (Within-weaken _ (omega arith) refl (
                  wait_for_inactive-Within round lo (mid + limit + 2 * round) limit u c.clocked
                    (omega arith) p q e))
                (λ _ v p q e. in_time p q e)))

  get_id-Within :
      (round lo mid limit : ℕ) (s : RidenModbus E)
      → Passing E round
      → mid + 2 * limit + 3 * round < 2 ^ 32
      → lo ≤ E.millis s.bus
      → E.millis s.bus ≤ mid
      → s.timeout ≡ limit
      → Within lo (mid + 2 * limit + 3 * round) limit (get_id s)
  unfolding get_id read_word
  get_id-Within round lo mid limit s c room after before same =
      Within-bind lo _ _ limit (read_holding_registers 0 1) (λ values. return (get_or values 0 0)) s
        (omega arith) (read-Within round lo mid limit 0 1 s c room after before same)
        (λ values t p q e. in_time p q e)

  identify-Within :
      (lo hi limit id : ℕ) (s : RidenModbus E)
      → lo ≤ E.millis s.bus
      → E.millis s.bus ≤ hi
      → s.timeout ≡ limit
      → Within lo hi limit (identify id s)
  unfolding identify
  identify-Within lo hi limit id s p q e =
      Within-if (within 60180 60189 id) _ _ (λ h. in_time p q e)
        (λ h.
          Within-if (within 60120 60124 id) _ _ (λ h. in_time p q e)
            (λ h.
              Within-if (within 60125 60129 id) _ _ (λ h. in_time p q e)
                (λ h.
                  Within-if (within 60060 60064 id) _ _ (λ h. in_time p q e)
                    (λ h.
                      Within-if (id == 60065) _ _ (λ h. in_time p q e)
                        (λ h.
                          Within-if (id == 60301) _ _ (λ h. in_time p q e)
                            (λ h.
                              Within-if (leb 60241 id) _ _ (λ h. in_time p q e)
                                (λ h. in_vain p q e)))))))

  finish_begin-Within :
      (lo hi limit : ℕ) (o : Outcome (RidenModbus E) ℕ)
      → Within lo hi limit o
      → Within lo hi limit (finish_begin o)
  unfolding finish_begin
  finish_begin-Within lo hi limit (ok id t) (in_time p q e) = identify-Within lo hi limit id _ p q e
  finish_begin-Within lo hi limit (fail t) (in_vain p q e) = in_vain p q e
  finish_begin-Within lo hi limit hung h = elim h [ ]

  start_begin-Within :
      (round lo mid limit : ℕ) (o : Outcome (RidenModbus E) (Unit {0}))
      → Passing E round
      → mid + 2 * limit + 3 * round < 2 ^ 32
      → Within lo mid limit o
      → Within lo (mid + 2 * limit + 3 * round) limit (start_begin o)
  unfolding start_begin
  start_begin-Within round lo mid limit (ok _ t) c room (in_time p q e) =
      finish_begin-Within lo _ limit _
        (get_id-Within round lo mid limit (record t { initialized = true }) c room p q e)
  start_begin-Within round lo mid limit (fail t) c room (in_vain p q e) = in_vain p (omega arith) e
  start_begin-Within round lo mid limit hung c room h = elim h [ ]

  -- `begin` ends by two time limits and four rounds later, and not before it has begun.
  pub begin-Within :
      (round mid limit baud : ℕ) (s : RidenModbus E)
      → Passing E round
      → mid + 2 * limit + 4 * round < 2 ^ 32
      → E.millis s.bus ≤ mid
      → s.timeout ≡ limit
      → Within (E.millis s.bus) (mid + 2 * limit + 4 * round) limit (begin baud s)
  unfolding begin
  begin-Within round mid limit baud s c room before same =
      let serial = c.serial_forward baud s.bus (omega arith) in
      Within-if s.initialized _ _ (λ on. in_time (omega arith) (omega arith) same)
        (λ off. Within-weaken _ (omega arith) refl (
          start_begin-Within round (E.millis s.bus) (mid + round) limit _ c (omega arith) (
            request-Within (E.millis s.bus) (mid + round) limit s (E.begin_serial baud) serial.0
              (omega (arith, serial)) same)))
