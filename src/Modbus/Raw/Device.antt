-- ===== src/Modbus/Raw/Device.antt =====
-- A power supply that answers in time, as hypotheses on the library behind the driver, and what the
-- three transfers do then: they read and write one file of registers.
use riden_dongle.Base.{
  ℕ, zero, suc, ◌+◌, ◌%◌, ◌^◌, ◌≤◌, ◌<◌, ◌≡◌, refl, ◌∙◌, ap, ◌⊎◌, inl, inr, Bool, true, false, List,
  ltb, Bool-cases, length, if◌then◌else◌, arith,
}
pub use riden_dongle.Base.Memory.{slice, update, updates, slice-append}
use riden_dongle.Modbus.Env.{Env}
use riden_dongle.Modbus.State.{RidenModbus, ok, fail, M, ◌>>=◌, bind-ok}
use riden_dongle.Modbus.Raw.{
  wait_loop, wait_for_inactive, request, received, read_holding_registers, write_holding_register,
  write_holding_registers,
}

-- The transaction in flight at `w` ends within `k` rounds, none of which ends after `limit`.
abbrev pub EndsBy : (E : Env) → ℕ → ℕ → E.World → Type 0
EndsBy E limit zero w = E.server w ≡ false
EndsBy E limit (suc k) w =
    (E.server w ≡ false) ⊎ ((E.millis (E.tick w) ≤ limit) × EndsBy E limit k (E.tick w))

-- A transaction begun now ends before the driver's time limit.
abbrev pub InTime : (E : Env) → ℕ → E.World → Type 0
InTime E timeout w = EndsBy E ((E.millis w + timeout) % 2 ^ 32) timeout w

-- `regs` is the register file once the transaction in flight has ended, and `incoming` the words
-- that a read brings. An idle library takes a request. The power supply answers reads of at most 20
-- registers, and stores what is written to a register that is `writable`. All this holds for the next
-- `budget` requests: the time limit fails when the millisecond counter wraps, so not for ever.
pub record Answers (E : Env) (timeout : ℕ) : Type 0 where
  pub regs : E.World → ℕ → ℕ
  pub incoming : E.World → List ℕ
  pub writable : ℕ → Bool
  pub budget : E.World → ℕ
  pub regs-tick : (w : E.World) → regs (E.tick w) ≡ regs w
  pub incoming-tick : (w : E.World) → incoming (E.tick w) ≡ incoming w
  pub budget-tick : (w : E.World) → E.server w ≡ true → budget (E.tick w) ≡ budget w
  pub deliver : (w : E.World) → E.server w ≡ false → E.buffer w ≡ incoming w
  pub read :
      (a n : ℕ) (w : E.World)
      → E.server w ≡ false
      → 0 < budget w
      → n ≤ 20
      → ((E.read_hreg a n w).0 ≡ true)
        × (regs (E.read_hreg a n w).1 ≡ regs w)
        × (incoming (E.read_hreg a n w).1 ≡ slice (regs w) a n)
        × InTime E timeout (E.read_hreg a n w).1
        × (budget w ≤ suc (budget (E.read_hreg a n w).1))
  pub write :
      (a v : ℕ) (w : E.World)
      → E.server w ≡ false
      → 0 < budget w
      → writable a ≡ true
      → ((E.write_hreg a v w).0 ≡ true)
        × (regs (E.write_hreg a v w).1 ≡ update (regs w) a v)
        × InTime E timeout (E.write_hreg a v w).1
        × (budget w ≤ suc (budget (E.write_hreg a v w).1))
  pub writes :
      (a : ℕ) (vs : List ℕ) (w : E.World)
      → E.server w ≡ false
      → 0 < budget w
      → ((i : ℕ) → i < length vs → writable (a + i) ≡ true)
      → ((E.write_hregs a vs w).0 ≡ true)
        × (regs (E.write_hregs a vs w).1 ≡ updates (regs w) a vs)
        × InTime E timeout (E.write_hregs a vs w).1
        × (budget w ≤ suc (budget (E.write_hregs a vs w).1))

module _ ⦃E : Env⦄ {timeout : ℕ} (d : Answers E timeout) where
  -- An object between two calls: initialised, with no transaction in flight and `n` requests to go.
  pub record Ready (n : ℕ) (s : RidenModbus E) : Type 0 where
    pub on : s.initialized ≡ true
    pub idle : E.server s.bus ≡ false
    pub limit : s.timeout ≡ timeout
    pub left : n ≤ d.budget s.bus

  -- A call at `s` returns `v` after at most `n` requests; only the bus changes, to an idle one with the
  -- registers `after`.
  abbrev pub Does {ℓ} : {A : Type ℓ} → ℕ → M E A → RidenModbus E → A → (ℕ → ℕ) → Type ℓ
  Does n m s v after =
      (w : E.World) × (m s ≡ ok v (record s { bus = w }))
      × (E.server w ≡ false)
      × (d.regs w ≡ after)
      × (d.budget s.bus ≤ n + d.budget w)

  wait_for_inactive_idle : {n : ℕ} (s : RidenModbus E) → Ready n s → wait_for_inactive s ≡ ok tt s
  unfolding wait_for_inactive wait_loop
  wait_for_inactive_idle s r = simp (r.on, r.idle)

  wait_loop_in_time :
      (k fuel until : ℕ) (s : RidenModbus E)
      → k ≤ fuel
      → EndsBy E until k s.bus
      → (w : E.World) × (wait_loop fuel until s ≡ ok tt (record s { bus = w }))
        × (E.server w ≡ false)
        × (d.regs w ≡ d.regs s.bus)
        × (d.incoming w ≡ d.incoming s.bus)
        × (d.budget w ≡ d.budget s.bus)
  unfolding wait_loop
  wait_loop_in_time zero zero until s le e = (s.bus, rw e, e, refl, refl, refl)
  wait_loop_in_time zero (suc fuel) until s le e = (s.bus, rw e, e, refl, refl, refl)
  wait_loop_in_time (suc k) zero until s le e = absurd (omega arith)
  wait_loop_in_time (suc k) (suc fuel) until s le (inl e) = (s.bus, rw e, e, refl, refl, refl)
  wait_loop_in_time (suc k) (suc fuel) until s le (inr (early, e)) =
      elim (Bool-cases (E.server s.bus)) [
        | inr idle ↦ (s.bus, rw idle, idle, refl, refl, refl)
        | inl busy ↦
            let (w, run, idle, same, brings, left) =
              wait_loop_in_time k fuel until (record s { bus = E.tick s.bus }) (omega arith) e in
            (
              w,
              rw (busy, on_time) run,
              idle,
              same ∙ d.regs-tick s.bus,
              brings ∙ d.incoming-tick s.bus,
              left ∙ d.budget-tick s.bus busy,
            )
      ]
    where
      on_time : ltb until (E.millis (E.tick s.bus)) ≡ false
      on_time = ground arith

  wait_for_inactive_on :
      (s : RidenModbus E)
      → s.initialized ≡ true
      → wait_for_inactive s ≡ wait_loop (suc s.timeout) ((E.millis s.bus + s.timeout) % 2 ^ 32) s
  unfolding wait_for_inactive
  wait_for_inactive_on s on = λ i.
      if on i then wait_loop (suc s.timeout) ((E.millis s.bus + s.timeout) % 2 ^ 32) s else fail s

  -- The wait that follows a request.
  wait_for_inactive-InTime :
      (s : RidenModbus E)
      → s.initialized ≡ true
      → s.timeout ≡ timeout
      → InTime E timeout s.bus
      → (w : E.World) × (wait_for_inactive s ≡ ok tt (record s { bus = w }))
        × (E.server w ≡ false)
        × (d.regs w ≡ d.regs s.bus)
        × (d.incoming w ≡ d.incoming s.bus)
        × (d.budget w ≡ d.budget s.bus)
  wait_for_inactive-InTime s on eq e =
      let (w, run, idle, same, brings, left) =
        wait_loop_in_time timeout (suc s.timeout) ((E.millis s.bus + s.timeout) % 2 ^ 32) s
          (omega arith) (rw eq e) in
      (w, wait_for_inactive_on s on ∙ run, idle, same, brings, left)

  -- A transfer from an idle object comes to its last part once the request has been taken.
  transfer_taken {ℓ} :
      {A : Type ℓ} (s : RidenModbus E) (call : E.World → Bool × E.World) (rest : M E A)
      → Ready 1 s
      → (call s.bus).0 ≡ true
      → (wait_for_inactive >>= λ _. request call >>= λ _. rest) s
        ≡ rest (record s { bus = (call s.bus).1 })
  transfer_taken s call rest r taken =
      bind-ok wait_for_inactive (λ _. request call >>= λ _. rest) s (wait_for_inactive_idle s r)
      ∙ bind-ok (request call) (λ _. rest) s (rw taken)

  -- With a power supply that answers in time, a read of at most 20 registers returns their words;
  -- the registers and the object's own fields stay as they were.
  pub read_holding_registers_lem :
      (a n : ℕ) (s : RidenModbus E)
      → Ready 1 s
      → n ≤ 20
      → Does 1 (read_holding_registers a n) s (slice (d.regs s.bus) a n) (d.regs s.bus)
  unfolding read_holding_registers
  read_holding_registers_lem a n s r le =
      let (taken, kept, brings, soon, cost) = d.read a n s.bus r.idle r.left le in
      let (w, run, idle, same, words, left) =
        wait_for_inactive-InTime (record s { bus = (E.read_hreg a n s.bus).1 }) r.on r.limit soon in
      (
        w,
        transfer_taken s (E.read_hreg a n) (wait_for_inactive >>= λ _. received) r taken
            ∙ bind-ok wait_for_inactive (λ _. received) _ run
            ∙ ap (λ vs. ok vs (record s { bus = w })) (d.deliver w idle ∙ words ∙ brings),
        idle,
        same ∙ kept,
        omega arith,
      )

  -- Likewise a write of one register stores its word there and nowhere else.
  pub write_holding_register_lem :
      (a v : ℕ) (s : RidenModbus E)
      → Ready 1 s
      → d.writable a ≡ true
      → Does 1 (write_holding_register a v) s tt (update (d.regs s.bus) a v)
  unfolding write_holding_register
  write_holding_register_lem a v s r can =
      let (taken, stored, soon, cost) = d.write a v s.bus r.idle r.left can in
      let (w, run, idle, same, words, left) =
        wait_for_inactive-InTime (record s { bus = (E.write_hreg a v s.bus).1 }) r.on r.limit
          soon in
      (
        w,
        transfer_taken s (E.write_hreg a v) wait_for_inactive r taken ∙ run,
        idle,
        same ∙ stored,
        omega arith,
      )

  -- Likewise a write of several registers stores its words from the first register on.
  pub write_holding_registers_lem :
      (a : ℕ) (vs : List ℕ) (s : RidenModbus E)
      → Ready 1 s
      → ((i : ℕ) → i < length vs → d.writable (a + i) ≡ true)
      → Does 1 (write_holding_registers a vs) s tt (updates (d.regs s.bus) a vs)
  unfolding write_holding_registers
  write_holding_registers_lem a vs s r can =
      let (taken, stored, soon, cost) = d.writes a vs s.bus r.idle r.left can in
      let (w, run, idle, same, words, left) =
        wait_for_inactive-InTime (record s { bus = (E.write_hregs a vs s.bus).1 }) r.on r.limit
          soon in
      (
        w,
        transfer_taken s (E.write_hregs a vs) wait_for_inactive r taken ∙ run,
        idle,
        same ∙ stored,
        omega arith,
      )
