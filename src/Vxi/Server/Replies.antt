-- ===== src/Vxi/Server/Replies.antt =====
-- `handle_packet` against the protocol: one reply to each request, with the right transaction and body.
use riden_dongle.Base.{
  ℕ, ◌+◌, ◌≤◌, ◌<◌, ◌≡◌, refl, ◌∙◌, ap, ◌⊎◌, inl, inr, Bool, true, false, List, [], ◌∷◌, ltb,
  if◌then◌else◌, Bool-cases, arith,
}
use riden_dongle.Base.Memory.{slice, update}
use riden_dongle.Vxi.Words.{htonl, ntohl, get_word, set_word}
use riden_dongle.Vxi.Net.{
  Net, Handler, Run, done, waiting, overrun, Act, ◌>>◌, bind-done, return, modify,
}
use riden_dongle.Vxi.Transport.{touch}
use riden_dongle.Vxi.Transport.Send.{Polls, send_packet_lem}
use riden_dongle.Vxi.Transport.Frame.{frame}
use riden_dongle.Vxi.Server.{
  VxiServer, send, respond_create, create_link, destroy_link, refuse, store_byte,
}
use riden_dongle.Vxi.Protocol.{link, unlink, words, answer}

module _ {N : Net} {H : Handler} where
  -- A method ends with `v` after one reply with that body to the transaction of the request in `s`,
  -- and the handler in that state; the port stays.
  abbrev pub Replies {ℓ} :
      {A : Type ℓ} → VxiServer N H → Run (VxiServer N H) A → A → List ℕ → H.State → N.World → Type ℓ
  Replies s o v body h w' =
      (t : VxiServer N H) × (o ≡ done v t)
      × (t.connection.world
          ≡ N.flush (N.write (frame (get_word s.connection.read_buffer 4) body) w'))
      × (t.scpi ≡ h)
      × (t.vxi_port ≡ s.vxi_port)

  -- Sending what a response has put into the send buffer.
  pub send-Replies :
      (polls m : ℕ) (s r : VxiServer N H) (w' : N.World)
      → m ≤ 232
      → get_word s.connection.read_buffer 4 ≡ get_word r.connection.read_buffer 4
      → s.vxi_port ≡ r.vxi_port
      → Polls N polls s.connection.world w'
      → Replies r (send polls (20 + m) s) tt (slice s.connection.send_buffer 24 m) s.scpi w'
  send-Replies polls m s r w' h xids ports p =
      let (b, e) = send_packet_lem polls 256 m s.connection w' (omega arith) (omega arith) p in
      let c = record s.connection {
        send_buffer = b;
        world = N.flush (
            N.write
              (frame (get_word s.connection.read_buffer 4) (slice s.connection.send_buffer 24 m))
              w');
      } in
      (
        record s { connection = c },
        (λ i. elim (e i) [
          | done a c ↦ done a (record s { connection = c })
          | waiting ↦ waiting
          | overrun ↦ overrun
        ]),
        ap (λ x. N.flush (N.write (frame x (slice s.connection.send_buffer 24 m)) w')) xids,
        refl,
        ports,
      )

  pub Replies-from {ℓ} :
      {A : Type ℓ} (r : VxiServer N H) {o o' : Run (VxiServer N H) A} (v : A) (body : List ℕ)
      (h : H.State) (w' : N.World)
      → o ≡ o'
      → Replies r o' v body h w'
      → Replies r o v body h w'
  Replies-from r v body h w' e (t, run, world, scpi, port) = (t, e ∙ run, world, scpi, port)

  pub Replies-body {ℓ} :
      {A : Type ℓ} (r : VxiServer N H) {o : Run (VxiServer N H) A} (v : A) {body body' : List ℕ}
      (h : H.State) (w' : N.World)
      → body ≡ body'
      → Replies r o v body h w'
      → Replies r o v body' h w'
  Replies-body r v h w' e (t, run, world, scpi, port) = (
    t,
    run,
    world ∙ ap (λ x. N.flush (N.write (frame (get_word r.connection.read_buffer 4) x) w')) e,
    scpi,
    port,
  )

  pub Replies-return :
      (r s : VxiServer N H) (m : Act (VxiServer N H) (Unit {0})) (close : Bool) (body : List ℕ)
      (h : H.State) (w' : N.World)
      → Replies r (m s) tt body h w'
      → Replies r ((m >> return close) s) close body h w'
  Replies-return r s m close body h w' (t, run, world, scpi, port) =
      (t, bind-done m (λ _. return close) s run, world, scpi, port)

  Replies-handler :
      (r s : VxiServer N H) (m : Act (VxiServer N H) (Unit {0})) (g : H.State → H.State)
      (body : List ℕ) (h : H.State) (w' : N.World)
      → Replies r (m s) tt body h w'
      → Replies r ((m >> modify (λ t. record t { scpi = g t.scpi })) s) tt body (g h) w'
  Replies-handler r s m g body h w' (t, run, world, scpi, port) = (
    record t { scpi = g t.scpi },
    bind-done m (λ _. modify (λ t. record t { scpi = g t.scpi })) s run,
    world,
    ap g scpi,
    port,
  )

  abbrev pub stored : ℕ → ℕ → VxiServer N H → VxiServer N H
  stored at v s = record s {
    connection = record s.connection { read_buffer = update s.connection.read_buffer (4 + at) v };
  }

  pub store_byte-bind {ℓ} :
      {A : Type ℓ} (at v : ℕ) (s : VxiServer N H) (k : Act (VxiServer N H) A)
      → 4 + at < 256
      → (store_byte at v >> k) s ≡ k (stored at v s)
  store_byte-bind at v s k h =
      bind-done (store_byte at v) (λ _. k) s
        (bind-done (touch 256 (4 + at)) _ s (λ i. if inside i then done tt s else overrun))
    where
      inside : ltb (4 + at) 256 ≡ true
      inside = ground arith

  -- Such a store leaves the transaction of the request alone.
  pub xid-stored :
      (at v : ℕ) (s : VxiServer N H)
      → 4 ≤ at
      → get_word (stored at v s).connection.read_buffer 4 ≡ get_word s.connection.read_buffer 4
  unfolding get_word ntohl
  xid-stored at v s h = ground arith

  module _ (polls : ℕ) (s : VxiServer N H) (w' : N.World)
      (p : Polls N polls s.connection.world w') where
    -- Control is refused, or the terminator of the device name falls within the buffer.
    pub create_link-Replies :
        ((H.claim_control s.scpi).0 ≡ false) ⊎ (get_word s.connection.read_buffer 56 ≤ 195)
        → Replies s (create_link polls s) tt (answer H link s.scpi).0 (answer H link s.scpi).1 w'
    unfolding create_link set_word htonl
    create_link-Replies h = elim (Bool-cases (H.claim_control s.scpi).0) [
      | inr busy ↦ rw busy (send-Replies polls 20 _ s w' (omega arith) refl refl p)
      | inl claimed ↦
          let short : get_word s.connection.read_buffer 56 ≤ 195 = elim h [
            | inl busy ↦ cc
            | inr few ↦ few
          ] in
          rw claimed (
            Replies-from s tt (words (0 ∷ 0 ∷ 0 ∷ 0 ∷ 252 ∷ [])) claimed_state.scpi w'
              (store_byte-bind (56 + get_word s.connection.read_buffer 56) 0 claimed_state
                (respond_create polls 0 252) (omega arith))
              (send-Replies polls 20 _ s w' (omega arith)
                (xid-stored (56 + get_word s.connection.read_buffer 56) 0 claimed_state
                  (omega arith))
                refl p))
    ]
      where
        claimed_state : VxiServer N H
        claimed_state = record s { scpi = (H.claim_control s.scpi).1 }

    pub destroy_link-Replies :
        Replies s (destroy_link polls s) tt (answer H unlink s.scpi).0 (answer H unlink s.scpi).1 w'
    unfolding destroy_link set_word htonl
    destroy_link-Replies =
        Replies-handler s _ (send polls 28) H.release_control (words (0 ∷ 0 ∷ [])) s.scpi w'
          (send-Replies polls 8 _ s w' (omega arith) refl refl p)

    pub refuse-Replies : (rc : ℕ) → Replies s (refuse polls rc s) false (words (rc ∷ [])) s.scpi w'
    unfolding set_word htonl
    refuse-Replies rc =
        Replies-return s _ (send polls 24) false (words (rc ∷ [])) s.scpi w'
          (send-Replies polls 4 _ s w' (omega arith) refl refl p)
