-- ===== src/Main/Flags.antt =====
-- The flags of the main program through a turn of its loop.
use riden_dongle.Base.{ℕ, ◌≡◌, refl, ◌∙◌, Bool, true, false, not, ◌&&◌, if◌then◌else◌}
use riden_dongle.Modbus.Env.{Env}
use riden_dongle.Modbus.Settings.{set_clock}
use riden_dongle.Modbus.Begin.{loop as modbus_loop}
use riden_dongle.Vxi.Net.{Run, done, waiting, overrun, Act, ◌>>=◌, modify}
use riden_dongle.Vxi.Bind.{loop as bind_loop}
use riden_dongle.Http.Board.{Board, Dongle, call}
use riden_dongle.Main.{
  Machine, Station, Arrival, handle_client, serve_scpi, serve_vxi, on_dongle, serve_bind,
  on_machine, set_psu_clock, update_time, serve, serve_if, loop,
}

-- A run whose last state, where it ends, has a property.
pub data After {ℓ κ} {S : Type κ} {A : Type ℓ} (P : S → Type 0) : Run S A → Type (ℓ ⊔ κ) where
  ended : {a : A} {s : S} → P s → After P (done a s)
  waits : After P waiting
  overruns : After P overrun

pub After-done {ℓ κ} :
    {S : Type κ} {A : Type ℓ} {P : S → Type 0} {a : A} {s : S} → After P (done a s) → P s
After-done (ended p) = p

pub After-bind {ℓ κ ι} :
    {S : Type ι} {A : Type ℓ} {B : Type κ} (P Q : S → Type 0) (m : Act S A) (f : A → Act S B)
    (s : S)
    → After P (m s)
    → ((a : A) (t : S) → P t → After Q (f a t))
    → After Q ((m >>= f) s)
After-bind {S = S} {A = A} P Q m f s h k = go (m s) h
  where
    go :
        (o : Run S A)
        → After P o
        → After Q (elim o [ done a t ↦ f a t | waiting ↦ waiting | overrun ↦ overrun ])
    go (done a t) (ended p) = k a t p
    go waiting p = waits
    go overrun p = overruns

pub After-if {ℓ κ} :
    {S : Type κ} {A : Type ℓ} (P : S → Type 0) (b : Bool) (x y : Run S A)
    → (b ≡ true → After P x)
    → (b ≡ false → After P y)
    → After P (if b then x else y)
After-if P true x y h k = h refl
After-if P false x y h k = k refl

-- Whether the clock has been set after a turn with the power supply.
abbrev pub set_by : Bool → Bool → Bool
set_by has_time did = if did then true else has_time

module _ ⦃E : Env⦄ {B : Board E} {M : Machine E B} where
  -- The flags of a station: whether it is connected, has the time and has set the clock.
  abbrev pub Flags : Bool → Bool → Bool → Station E B M → Type 0
  Flags connected has_time did s =
      (s.connected ≡ connected) × (s.has_time ≡ has_time) × (s.did_update_time ≡ did)

  -- What a step of the dongle's objects leaves alone.
  pub on_dongle-keeps {ℓ} :
      {A : Type ℓ} (P : Station E B M → Type 0) (m : Act (Dongle E B) A) (s : Station E B M)
      → ((t : Dongle E B) → P (record s { dongle = t }))
      → After P (on_dongle {M = M} m s)
  on_dongle-keeps {A = A} P m s p = go (m s.dongle)
    where
      go :
          (o : Run (Dongle E B) A)
          → After P (elim o [
            | done a t ↦ done a (record s { dongle = t })
            | waiting ↦ waiting
            | overrun ↦ overrun
          ])
      go (done a t) = ended (p t)
      go waiting = waits
      go overrun = overruns

  on_dongle-After {ℓ} :
      {A : Type ℓ} (m : Act (Dongle E B) A) (c h d : Bool) (s : Station E B M)
      → Flags c h d s
      → After (Flags c h d) (on_dongle {M = M} m s)
  on_dongle-After m c h d s p = on_dongle-keeps (Flags c h d) m s (λ t. p)

  serve_bind-After :
      (polls : ℕ) (c h d : Bool) (s : Station E B M)
      → Flags c h d s
      → After (Flags c h d) (serve_bind polls s)
  serve_bind-After polls c h d s p = go (bind_loop polls s.dongle.vxi_server s.rpc_bind_server)
    where
      go :
          (o : Run _ (Unit {0}))
          → After (Flags c h d) (elim o [
            | done a t ↦ done a (record s { rpc_bind_server = t })
            | waiting ↦ waiting
            | overrun ↦ overrun
          ])
      go (done a t) = ended p
      go waiting = waits
      go overrun = overruns

  pub update_time-set :
      (s : Station E B M)
      → s.has_time ≡ true
      → s.did_update_time ≡ false
      → update_time s ≡ set_psu_clock s
  unfolding update_time
  update_time-set s has did = λ i. if has i && not (did i) then set_psu_clock s else done tt s

  pub update_time-done : (s : Station E B M) → s.did_update_time ≡ true → update_time s ≡ done tt s
  unfolding update_time
  update_time-done s did =
      (λ i. if s.has_time && not (did i) then set_psu_clock s else done tt s) ∙ never s.has_time
    where
      never : (b : Bool) → (if b && false then set_psu_clock s else done tt s) ≡ done tt s
      never true = refl
      never false = refl

  update_time-early : (s : Station E B M) → s.has_time ≡ false → update_time s ≡ done tt s
  unfolding update_time
  update_time-early s has =
      λ i. if has i && not s.did_update_time then set_psu_clock s else done tt s

  update_time-After :
      (c h d : Bool) (s : Station E B M)
      → Flags c h d s
      → After (Flags c h (set_by h d)) (update_time s)
  update_time-After c h true s (pc, ph, pd) = rw (update_time-done s pd) (ended (pc, ph, pd))
  update_time-After c false false s (pc, ph, pd) = rw (update_time-early s ph) (ended (pc, ph, pd))
  update_time-After c true false s (pc, ph, pd) = rw (update_time-set s ph pd) (
      After-bind (Flags c true false) (Flags c true true)
        (on_dongle (call (set_clock (M.local_time s.dongle.platform))))
        (λ result. modify (λ t. record t { did_update_time = true })) s
        (on_dongle-After (call (set_clock (M.local_time s.dongle.platform))) c true false s
          (pc, ph, pd))
        (λ a t q. ended (q.0, q.1, refl)))

  serve-After :
      (polls : ℕ) (c h d : Bool) (s : Station E B M)
      → Flags c h d s
      → After (Flags c h (set_by h d)) (serve polls s)
  serve-After polls c h d s p =
      let F = Flags c h (set_by h d) in
      After-bind F F update_time _ s (update_time-After c h d s p) (λ _ t p₁.
        After-bind F F (on_machine M.mdns_update) _ t (ended p₁) (λ _ t p₂.
          After-bind F F (on_dongle (call modbus_loop)) _ t
            (on_dongle-After (call modbus_loop) c h _ t p₂)
            (λ _ t p₃.
              After-bind F F (on_dongle serve_scpi) _ t (on_dongle-After serve_scpi c h _ t p₃)
                (λ _ t p₄.
                  After-bind F F (on_dongle M.task) _ t (on_dongle-After M.task c h _ t p₄)
                    (λ _ t p₅.
                      After-bind F F (serve_bind polls) _ t (serve_bind-After polls c h _ t p₅)
                        (λ _ t p₆. on_dongle-After (serve_vxi polls) c h _ t p₆))))))

  -- The flags after a turn of the main loop.
  pub loop-After :
      (polls rounds : ℕ) (arrival : Arrival) (c h d : Bool) (s : Station E B M)
      → Flags c h d s
      → After (Flags c h (if c then set_by h d else d)) (loop polls rounds arrival s)
  unfolding loop
  loop-After polls rounds arrival c h d s p =
      let F = Flags c h (if c then set_by h d else d) in
      After-bind F F (serve_if polls) _ s (served c p) (λ _ t p₁.
        After-bind F F (on_dongle (handle_client rounds arrival)) _ t
          (on_dongle-After (handle_client rounds arrival) c h _ t p₁) (λ sent t p₂. ended p₂))
    where
      served :
          (c : Bool)
          → Flags c h d s
          → After (Flags c h (if c then set_by h d else d)) (serve_if polls s)
      served true q =
          After-if _ s.connected _ _ (λ on. serve-After polls true h d s q) (λ off. cc (q.0, off))
      served false q = After-if _ s.connected _ _ (λ on. cc (q.0, on)) (λ off. ended q)
