-- ===== src/Http/Disconnect.antt =====
-- The list of clients on the root page, and the request behind each of its buttons.
use riden_dongle.Base.{
  ℕ, ◌≡◌, refl, ◌∙◌, ap, sym, Bool, true, false, ◌&&◌, List, [], ◌∷◌, some, ◌==◌, if◌then◌else◌,
  arith,
}
use mathlib.Core.Path.{subst}
use riden_dongle.Modbus.Env.{Env}
use riden_dongle.Vxi.Net.{done, return, bind-done}
use riden_dongle.Vxi.Server.{
  get_connected_clients as vxi_connected_clients, disconnect_client as vxi_disconnect_client,
}
use riden_dongle.Scpi.Server.{
  Socket, RidenScpi, get_connected_clients as scpi_connected_clients,
  disconnect_client as scpi_disconnect_client, release_external_control,
}
use riden_dongle.ModbusBridge.Clients.{get_connected_clients as bridge_connected_clients}
use riden_dongle.Http.Board.{Board, Dongle, Request, scpi, with_scpi}
use riden_dongle.Http.Root.{scpi_protocol, vxi11_protocol}
use riden_dongle.Http.Settings.{
  send_redirect_root, disconnect, disconnect_if, handle_disconnect_client_post,
}

listed_guard :
    (a b : Bool) (r ip : ℕ)
    → (if a && b then r ∷ [] else []) ≡ ip ∷ []
    → (a && b && (r == ip)) ≡ true
listed_guard true true r ip h = ground arith
listed_guard true false r ip h = cc h
listed_guard false b r ip h = cc h

-- The two servers that serve one client at a time.
pub data Single : Type 0 where
  scpi_raw vxi_11 : Single

abbrev pub protocol_of : Single → List ℕ
protocol_of scpi_raw = scpi_protocol
protocol_of vxi_11 = vxi11_protocol

abbrev pub other : Single → Single
other scpi_raw = vxi_11
other vxi_11 = scpi_raw

scpi_disconnected :
    {S : Socket} {D : Type 0} (s : RidenScpi S D) (ip : ℕ)
    → scpi_connected_clients s ≡ ip ∷ []
    → scpi_disconnect_client ip s ≡ record s { world = S.stop s.world }
unfolding scpi_connected_clients scpi_disconnect_client
scpi_disconnected {S} s ip on = λ i.
    if listed_guard (S.client s.world) (S.connected s.world) (S.remote_ip s.world) ip on i
    then record s { world = S.stop s.world }
    else s

module _ ⦃E : Env⦄ {B : Board E} where
  abbrev pub listed : Single → Dongle E B → List ℕ
  listed scpi_raw s = scpi_connected_clients (scpi s)
  listed vxi_11 s = vxi_connected_clients s.vxi_server

  -- Whether RidenScpi is under external control once the client of a server has gone.
  abbrev pub control : Single → Dongle E B → Bool
  control scpi_raw s = (scpi s).external_control
  control vxi_11 s = false

  -- The client of one server is no longer listed, and those of the others are; only with the client of
  -- the VXI-11 server goes its control of RidenScpi.
  abbrev pub Gone : Single → Dongle E B → Dongle E B → Type 0
  Gone service s t =
      (listed service t ≡ [])
      × (listed (other service) t ≡ listed (other service) s)
      × (bridge_connected_clients t.modbus_tcp ≡ bridge_connected_clients s.modbus_tcp)
      × ((scpi t).external_control ≡ control service s)

  scpi_disconnect-Gone :
      (s : Dongle E B) (ip : ℕ)
      → ((w : B.socket.World) → B.socket.client (B.socket.stop w) ≡ false)
      → listed scpi_raw s ≡ ip ∷ []
      → Gone scpi_raw s (with_scpi (scpi_disconnect_client ip (scpi s)) s)
  unfolding scpi_connected_clients vxi_connected_clients
  scpi_disconnect-Gone s ip stops on =
      let w = (scpi s).world in
      (
        ap scpi_connected_clients (scpi_disconnected (scpi s) ip on) ∙ (λ i.
            if stops w i && B.socket.connected (B.socket.stop w)
            then B.socket.remote_ip (B.socket.stop w) ∷ []
            else []),
        refl,
        refl,
        ap (λ t. t.external_control) (scpi_disconnected (scpi s) ip on),
      )

  -- The VXI-11 server without its client and in control of nothing.
  abbrev pub vxi_stopped : Dongle E B → Dongle E B
  vxi_stopped s =
      let server = s.vxi_server in
      record s {
        vxi_server = record server {
          connection = record server.connection { world = B.net.stop server.connection.world };
          scpi = release_external_control server.scpi;
        };
      }

  vxi_disconnected :
      (s : Dongle E B) (ip : ℕ)
      → listed vxi_11 s ≡ ip ∷ []
      → record s { vxi_server = vxi_disconnect_client ip s.vxi_server } ≡ vxi_stopped s
  unfolding vxi_connected_clients vxi_disconnect_client
  vxi_disconnected s ip on = λ i. record s {
    vxi_server =
        if listed_guard (B.net.client s.vxi_server.connection.world)
          (B.net.connected s.vxi_server.connection.world)
          (B.net.remote_ip s.vxi_server.connection.world) ip on i
        then (vxi_stopped s).vxi_server
        else s.vxi_server;
  }

  vxi_stopped-Gone :
      (s : Dongle E B)
      → ((w : B.net.World) → B.net.client (B.net.stop w) ≡ false)
      → Gone vxi_11 s (vxi_stopped s)
  unfolding scpi_connected_clients vxi_connected_clients release_external_control
  vxi_stopped-Gone s stops =
      let w = s.vxi_server.connection.world in
      (
        (λ i.
            if stops w i && B.net.connected (B.net.stop w)
            then B.net.remote_ip (B.net.stop w) ∷ []
            else []),
        refl,
        refl,
        refl,
      )

  -- The dongle after the client of a server has been disconnected.
  abbrev pub after : Single → ℕ → Dongle E B → Dongle E B
  after scpi_raw ip s = with_scpi (scpi_disconnect_client ip (scpi s)) s
  after vxi_11 ip s = record s { vxi_server = vxi_disconnect_client ip s.vxi_server }

  after-Gone :
      (service : Single) (ip : ℕ) (s : Dongle E B)
      → ((w : B.socket.World) → B.socket.client (B.socket.stop w) ≡ false)
      → ((w : B.net.World) → B.net.client (B.net.stop w) ≡ false)
      → listed service s ≡ ip ∷ []
      → Gone service s (after service ip s)
  after-Gone scpi_raw ip s stops_raw stops_vxi on = scpi_disconnect-Gone s ip stops_raw on
  after-Gone vxi_11 ip s stops_raw stops_vxi on =
      subst (Gone vxi_11 s) (sym (vxi_disconnected s ip on)) (vxi_stopped-Gone s stops_vxi)

  disconnect-after :
      (service : Single) (ip : ℕ) (request : Request) (s : Dongle E B)
      → B.platform.from_string (request.arg "ip") ≡ some ip
      → request.arg "protocol" ≡ protocol_of service
      → handle_disconnect_client_post request s ≡ done send_redirect_root (after service ip s)
  unfolding handle_disconnect_client_post
  disconnect-after scpi_raw ip request s known named =
      bind-done (disconnect_if (B.platform.from_string (request.arg "ip")) (request.arg "protocol"))
        (λ _. return send_redirect_root) s
        (ap (λ o. disconnect_if o (request.arg "protocol") s) known
          ∙ ap (λ p. disconnect ip p s) named)
  disconnect-after vxi_11 ip request s known named =
      bind-done (disconnect_if (B.platform.from_string (request.arg "ip")) (request.arg "protocol"))
        (λ _. return send_redirect_root) s
        (ap (λ o. disconnect_if o (request.arg "protocol") s) known
          ∙ ap (λ p. disconnect ip p s) named)

  -- The button of a client that the root page lists under SCPI RAW or VXI-11, where a stopped client is
  -- none and the address of the request is read as it was shown: handle_disconnect_client_post returns
  -- with the redirection, the client is no longer listed, the clients of the two other servers are listed
  -- as before, and RidenScpi is under external control as before or, with the client of VXI-11, under
  -- none.
  pub disconnect_listed :
      (service : Single) (ip : ℕ) (request : Request) (s : Dongle E B)
      → ((w : B.socket.World) → B.socket.client (B.socket.stop w) ≡ false)
      → ((w : B.net.World) → B.net.client (B.net.stop w) ≡ false)
      → B.platform.from_string (request.arg "ip") ≡ some ip
      → request.arg "protocol" ≡ protocol_of service
      → listed service s ≡ ip ∷ []
      → (t : Dongle E B) × (handle_disconnect_client_post request s ≡ done send_redirect_root t)
        × Gone service s t
  disconnect_listed service ip request s stops_raw stops_vxi known named on = (
    after service ip s,
    disconnect-after service ip request s known named,
    after-Gone service ip s stops_raw stops_vxi on,
  )
