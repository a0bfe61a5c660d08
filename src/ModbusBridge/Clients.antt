-- ===== src/ModbusBridge/Clients.antt =====
-- The class RidenModbusTCP of src/riden_modbus_bridge/riden_modbus_bridge.cpp: the clients of the
-- ModbusTCP library, in its array of MODBUSIP_MAX_CLIENTS pointers.
use riden_dongle.Base.{
  ℕ, zero, suc, ◌≡◌, refl, ◌∙◌, ap, Bool, Bool-cases, inl, inr, List, [], ◌∷◌, ◌++◌, length, Option,
  none, some, if◌then◌else◌,
}
use riden_dongle.Vxi.Net.{done, overrun, Act}

-- The library's client objects, and its `getMaster`, which is -1 (none) where it finds no client.
pub record TcpLibrary : Type 1 where
  pub Client : Type 0
  pub World : Type 0
  pub connected : Client → World → Bool
  pub remote_ip : Client → World → ℕ
  pub flush : Client → World → World
  pub delete : Client → World → World
  pub get_master : ℕ → List (Option Client) → World → Option ℕ

pub record RidenModbusTcp (T : TcpLibrary) : Type 0 where
  pub tcpclient : List (Option T.Client)
  pub world : T.World

-- `tcpclient[n]` where it is not null, and the array with a null pointer there.
abbrev pub client_at {ℓ} : {A : Type ℓ} → ℕ → List (Option A) → Option A
client_at n [] = none
client_at zero (c ∷ rest) = c
client_at (suc n) (c ∷ rest) = client_at n rest

abbrev pub set_null {ℓ} : {A : Type ℓ} → ℕ → List (Option A) → List (Option A)
set_null n [] = []
set_null zero (c ∷ rest) = none ∷ rest
set_null (suc n) (c ∷ rest) = c ∷ set_null n rest

client_at-append {ℓ} :
    {A : Type ℓ} (before after : List (Option A)) (c : A)
    → client_at (length before) (before ++ some c ∷ after) ≡ some c
client_at-append [] after c = refl
client_at-append (x ∷ before) after c = client_at-append before after c

set_null-append {ℓ} :
    {A : Type ℓ} (before after : List (Option A)) (c : A)
    → set_null (length before) (before ++ some c ∷ after) ≡ before ++ none ∷ after
set_null-append [] after c = refl
set_null-append (x ∷ before) after c = ap (λ r. x ∷ r) (set_null-append before after c)

module _ (T : TcpLibrary) where
  abbrev pub connected_ips : T.World → List (Option T.Client) → List ℕ
  connected_ips w [] = []
  connected_ips w (none ∷ rest) = connected_ips w rest
  connected_ips w (some c ∷ rest) =
      let ips = connected_ips w rest in if T.connected c w then T.remote_ip c w ∷ ips else ips

  connected_ips-append :
      (w : T.World) (before after : List (Option T.Client))
      → connected_ips w (before ++ after) ≡ connected_ips w before ++ connected_ips w after
  connected_ips-append w [] after = refl
  connected_ips-append w (none ∷ before) after = connected_ips-append w before after
  connected_ips-append w (some c ∷ before) after = elim (Bool-cases (T.connected c w)) [
    | inl e ↦ rw e (ap (λ r. T.remote_ip c w ∷ r) (connected_ips-append w before after))
    | inr e ↦ rw e (connected_ips-append w before after)
  ]

module _ {T : TcpLibrary} where
  abbrev pub get_connected_clients : RidenModbusTcp T → List ℕ
  get_connected_clients s = connected_ips T s.world s.tcpclient

  -- A null pointer has no `flush`.
  abbrev pub delete_client : ℕ → Option T.Client → Act (RidenModbusTcp T) (Unit {0})
  delete_client n none s = overrun
  delete_client n (some c) s =
      done tt
        (record { tcpclient = set_null n s.tcpclient; world = T.delete c (T.flush c s.world) })

  abbrev pub drop_master : Option ℕ → Act (RidenModbusTcp T) (Unit {0})
  drop_master none s = done tt s
  drop_master (some n) s = delete_client n (client_at n s.tcpclient) s

  unfoldable pub disconnect_client : ℕ → Act (RidenModbusTcp T) (Unit {0})
  disconnect_client ip s = drop_master (T.get_master ip s.tcpclient s.world) s

  -- Where `getMaster` finds a client between others, `disconnect_client` flushes and deletes that client,
  -- and the clients that are connected afterwards are those of the others.
  pub disconnect_client_lem :
      (ip : ℕ) (before after : List (Option T.Client)) (c : T.Client) (w : T.World)
      → T.get_master ip (before ++ some c ∷ after) w ≡ some (length before)
      → (t : RidenModbusTcp T) × (disconnect_client ip
            (record { tcpclient = before ++ some c ∷ after; world = w })
          ≡ done tt t)
        × (t.world ≡ T.delete c (T.flush c w))
        × (get_connected_clients t
            ≡ connected_ips T (T.delete c (T.flush c w)) before
              ++ connected_ips T (T.delete c (T.flush c w)) after)
  unfolding disconnect_client
  disconnect_client_lem ip before after c w found =
      let s : RidenModbusTcp T = record { tcpclient = before ++ some c ∷ after; world = w } in
      let w' = T.delete c (T.flush c w) in
      (
        record { tcpclient = set_null (length before) (before ++ some c ∷ after); world = w' },
        ap (λ o. drop_master o s) found
            ∙ ap (λ o. delete_client (length before) o s) (client_at-append before after c),
        refl,
        ap (connected_ips T w') (set_null-append before after c)
            ∙ connected_ips-append T w' before (none ∷ after),
      )
