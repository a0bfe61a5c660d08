-- ===== src/Vxi/Net.antt =====
-- What the servers use and do not implement: the TCP client and server of the platform, the SCPI
-- handler (an interface that src/scpi_bridge fills), and the shape of their methods.
use riden_dongle.Base.{ℕ, Bool, List, ◌≡◌}

-- The members `client` and `tcp_server` of a VXI_Server.
pub record Net : Type 1 where
  pub World : Type 0
  -- `client` as a condition, `client.connected()`, `client.remoteIP()` and `client.stop()`.
  pub client : World → Bool
  pub connected : World → Bool
  pub remote_ip : World → ℕ
  pub stop : World → World
  -- What `client.readBytes` brings, at most so many bytes.
  pub read_bytes : ℕ → World → List ℕ × World
  pub available_for_write : World → ℕ × World
  pub write : List ℕ → World → World
  pub flush : World → World
  -- `client = tcp_server.accept()`, `tcp_server.stop()` and `tcp_server.begin(port)`.
  pub accept : World → World
  pub stop_server : World → World
  pub begin_server : ℕ → World → World

-- `SCPI_handler_interface`. A read says what it has stored, at most so many bytes.
pub record Handler : Type 1 where
  pub State : Type 0
  pub write : List ℕ → State → State
  pub read : ℕ → State → List ℕ × State
  pub claim_control : State → Bool × State
  pub release_control : State → State

-- How a method ends: with a value, in a waiting loop, or with an access outside of a buffer.
pub data Run {ℓ κ} (S : Type κ) (A : Type ℓ) : Type (ℓ ⊔ κ) where
  done : A → S → Run S A
  waiting : Run S A
  overrun : Run S A

abbrev pub Act {ℓ κ} : Type κ → Type ℓ → Type (ℓ ⊔ κ)
Act S A = S → Run S A

infixl 5 ◌>>=◌ ◌>>◌
abbrev pub ◌>>=◌ {ℓ κ ι} :
    {S : Type ι} {A : Type ℓ} {B : Type κ} → Act S A → (A → Act S B) → Act S B
◌>>=◌ m f s = elim (m s) [ done a t ↦ f a t | waiting ↦ waiting | overrun ↦ overrun ]

abbrev pub ◌>>◌ {ℓ κ ι} : {S : Type ι} {A : Type ℓ} {B : Type κ} → Act S A → Act S B → Act S B
m >> k = m >>= λ _. k

abbrev pub return {ℓ κ} : {S : Type κ} {A : Type ℓ} → A → Act S A
return a s = done a s

abbrev pub gets {ℓ κ} : {S : Type κ} {A : Type ℓ} → (S → A) → Act S A
gets f s = done (f s) s

abbrev pub modify {κ} : {S : Type κ} → (S → S) → Act S (Unit {0})
modify f s = done tt (f s)

-- A step that has ended with a value hands over to the rest.
pub bind-done {ℓ κ ι} :
    {S : Type ι} {A : Type ℓ} {B : Type κ} (m : Act S A) (f : A → Act S B) (s : S) {a : A} {t : S}
    → m s ≡ done a t
    → (m >>= f) s ≡ f a t
bind-done m f s p = λ i. elim (p i) [ done a t ↦ f a t | waiting ↦ waiting | overrun ↦ overrun ]

-- An access outside of a buffer ends the method.
pub bind-overrun {ℓ κ ι} :
    {S : Type ι} {A : Type ℓ} {B : Type κ} (m : Act S A) (f : A → Act S B) (s : S)
    → m s ≡ overrun
    → (m >>= f) s ≡ overrun
bind-overrun m f s p = λ i. elim (p i) [ done a t ↦ f a t | waiting ↦ waiting | overrun ↦ overrun ]
