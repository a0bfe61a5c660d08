-- ===== src/Modbus/Raw/Calls.antt =====
-- What follows a call of a transfer on a power supply that answers in time: what the rest of a method
-- makes of it, and the object that the next call finds.
use riden_dongle.Base.{ℕ, ◌+◌, ◌≤◌, ◌≡◌, ◌∙◌, ap, false, some, arith}
use riden_dongle.Modbus.Env.{Env}
use riden_dongle.Modbus.State.{RidenModbus, ok, M, ◌>>=◌, ◌>>◌, bind-ok, result}
use riden_dongle.Modbus.Raw.Device.{Answers, Ready, Does}

module _ ⦃E : Env⦄ {timeout : ℕ} (d : Answers E timeout) where
  -- A step that the rest of a method only converts.
  pub Does-bind {ℓ κ} :
      {A : Type ℓ} {B : Type κ} (n : ℕ) (m : M E A) (f : A → M E B) (s : RidenModbus E) {v : A}
      {b : B} {after : ℕ → ℕ}
      → Does d n m s v after
      → ((w : E.World) → f v (record s { bus = w }) ≡ ok b (record s { bus = w }))
      → Does d n (m >>= f) s b after
  Does-bind n m f s (w, run, idle, same, cost) k = (w, bind-ok m f s run ∙ k w, idle, same, cost)

  pub Does-result {ℓ} :
      {A : Type ℓ} (n : ℕ) (m : M E A) (s : RidenModbus E) {v : A} {after : ℕ → ℕ}
      → Does d n m s v after
      → result (m s) ≡ some v
  Does-result n m s (w, run, idle, same, cost) = ap result run

  pub bind-result {ℓ κ} :
      {A : Type ℓ} {B : Type κ} (n : ℕ) (m : M E A) (f : A → M E B) (s : RidenModbus E) {v : A}
      {b : B} {after : ℕ → ℕ}
      → Does d n m s v after
      → ((w : E.World) → f v (record s { bus = w }) ≡ ok b (record s { bus = w }))
      → result ((m >>= f) s) ≡ some b
  bind-result n m f s h k = Does-result n (m >>= f) s (Does-bind n m f s h k)

  -- The object after such a call is ready again.
  pub Ready-bus :
      (k n : ℕ) (s : RidenModbus E) (w : E.World)
      → Ready d (k + n) s
      → E.server w ≡ false
      → d.budget s.bus ≤ k + d.budget w
      → Ready d n (record s { bus = w })
  Ready-bus k n s w r idle cost = record {
    on = r.on;
    idle = idle;
    limit = r.limit;
    left = omega (arith, r.left);
  }

  pub Ready-le : {m n : ℕ} {s : RidenModbus E} → Ready d n s → m ≤ n → Ready d m s
  Ready-le r le = record { on = r.on; idle = r.idle; limit = r.limit; left = omega (arith, r.left) }

  pub Does-le {ℓ} :
      {A : Type ℓ} (m n : ℕ) (k : M E A) (s : RidenModbus E) {v : A} {after : ℕ → ℕ}
      → m ≤ n
      → Does d m k s v after
      → Does d n k s v after
  Does-le m n k s le (w, run, idle, same, cost) = (w, run, idle, same, omega arith)

  -- A call, and what a second one reports of the registers that the first has left.
  pub then-result {ℓ κ} :
      {A : Type ℓ} {B : Type κ} (m : M E A) (k : M E B) (s : RidenModbus E) (n : ℕ) {v : A} {b : B}
      {after : ℕ → ℕ}
      → Ready d (1 + n) s
      → Does d 1 m s v after
      → ((w : E.World)
          → Ready d n (record s { bus = w })
          → d.regs w ≡ after
          → result (k (record s { bus = w })) ≡ some b)
      → result ((m >> k) s) ≡ some b
  then-result m k s n r (w, run, idle, same, cost) next =
      ap result (bind-ok m (λ _. k) s run) ∙ next w (Ready-bus 1 n s w r idle cost) same
