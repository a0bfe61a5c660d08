-- ===== src/Scpi/Server.antt =====
-- The class RidenScpi of src/riden_scpi/riden_scpi.cpp without its commands: the input and output
-- buffers, control from outside, and the socket loop. `scpi_bridge.h` hands it to the VXI-11 server.
pub mod Output
pub mod Input
use riden_dongle.Base.{
  ℕ, zero, suc, ◌+◌, ◌-◌, Bool, true, false, not, ◌&&◌, ◌||◌, List, [], ◌∷◌, Option, none, some,
  length, ltb, leb, ◌==◌, if◌then◌else◌,
}
use riden_dongle.Base.Memory.{slice, update, updates}
use riden_dongle.Vxi.Net.{Handler, Run, done, waiting, overrun, Act, ◌>>=◌, ◌>>◌, return, modify}

-- `tcpServer`, `client`, and the client that `tcpServer.accept()` returns.
pub record Socket : Type 1 where
  pub World : Type 0
  pub client : World → Bool
  pub connected : World → Bool
  pub remote_ip : World → ℕ
  pub stop : World → World
  pub available : World → ℕ
  -- `client.readBytes(buffer, 1)`: a byte, or none.
  pub read_byte : World → Option ℕ × World
  pub write : List ℕ → World → World
  pub flush : World → World
  -- `accept` tells whether there is a new client, which is then kept as `client`, or stopped.
  pub accept : World → Bool × World
  pub keep_new : World → World
  pub stop_new : World → World

-- `SCPI_INPUT_BUFFER_LENGTH` and `WRITE_BUFFER_LENGTH`.
abbrev pub input_size : ℕ
input_size = 256

abbrev pub output_size : ℕ
output_size = 256

-- `input`, `position` and `input_length` are `scpi_context.buffer`; `device` is the rest of what the
-- parser works on, its context and the driver.
pub record RidenScpi (S : Socket) (D : Type 0) : Type 0 where
  pub input : ℕ → ℕ
  pub position : ℕ
  pub input_length : ℕ
  pub write_buffer : ℕ → ℕ
  pub write_buffer_length : ℕ
  pub external_control : Bool
  pub external_output_ready : Bool
  pub device : D
  pub world : S.World

module _ {S : Socket} {D : Type 0} where
  -- `SCPI_Write`, the library's way to write a part of a result.
  unfoldable pub scpi_write : List ℕ → Act (RidenScpi S D) (Unit {0})
  scpi_write bytes s =
      let n = s.write_buffer_length in
      let written = record s {
        external_output_ready = false;
        write_buffer = updates s.write_buffer n bytes;
        write_buffer_length = n + length bytes;
      } in
      if leb (n + length bytes) output_size then done tt written else overrun

  -- `SCPI_Flush`, at the end of a result.
  unfoldable pub scpi_flush : RidenScpi S D → RidenScpi S D
  scpi_flush s =
      let bytes = slice s.write_buffer 0 s.write_buffer_length in
      let sent = record s { write_buffer_length = 0; world = S.flush (S.write bytes s.world) } in
      if s.external_control
      then record s { external_output_ready = true }
      else if S.client s.world
      then sent
      else s

  unfoldable pub claim_external_control : RidenScpi S D → Bool × RidenScpi S D
  claim_external_control s = (true, record s { external_control = true })

  unfoldable pub release_external_control : RidenScpi S D → RidenScpi S D
  release_external_control s = record s { external_control = false }

  unfoldable pub reset_buffers : RidenScpi S D → RidenScpi S D
  reset_buffers s = record s { write_buffer_length = 0; input_length = 0; position = 0 }

  -- `read` of at most `max_len` bytes: what it stores, where it returns `SCPI_RES_OK`.
  unfoldable pub read : ℕ → RidenScpi S D → Option (List ℕ) × RidenScpi S D
  read max_len s =
      if not s.external_control || ltb max_len s.write_buffer_length || not s.external_output_ready
      then (none, s)
      else (
        some (slice s.write_buffer 0 s.write_buffer_length),
        record s { write_buffer_length = 0 },
      )

  unfoldable pub get_connected_clients : RidenScpi S D → List ℕ
  get_connected_clients s =
      if S.client s.world && S.connected s.world then S.remote_ip s.world ∷ [] else []

  unfoldable pub disconnect_client : ℕ → RidenScpi S D → RidenScpi S D
  disconnect_client ip s =
      if S.client s.world && S.connected s.world && (S.remote_ip s.world == ip)
      then record s { world = S.stop s.world }
      else s

  -- `scpi_input` is `SCPI_Input(&scpi_context, NULL, 0)`, which runs the commands in the buffer.
  module _ (scpi_input : Act (RidenScpi S D) (Unit {0})) where
    -- `write`, from outside.
    unfoldable pub write : List ℕ → Act (RidenScpi S D) (Unit {0})
    write bytes s =
        let n = length bytes in
        if (n == 0) || ltb input_size n
        then done tt s
        else scpi_input (record s {
          input = updates s.input 0 bytes;
          position = n;
          input_length = n;
          external_control = true;
        })

    -- A byte from the client.
    abbrev pub insert : ℕ → RidenScpi S D → RidenScpi S D
    insert b s = record s {
      input = update s.input s.position b;
      position = s.position + 1;
      input_length = s.input_length + 1;
    }

    abbrev pub overflow : RidenScpi S D → RidenScpi S D
    overflow s = record s { position = 0; input_length = 0; world = S.stop s.world }

    -- A round of the loop, by the byte that the client has brought; `more` is the rounds after it.
    abbrev pub line_round :
        Act (RidenScpi S D) (Unit {0}) → Option ℕ × S.World → Act (RidenScpi S D) (Unit {0})
    line_round more (none, w) s = done tt (record s { world = w })
    line_round more (some b, w) s =
        let t = insert b (record s { world = w }) in
        let parsed = scpi_input t in
        let rest = more t in
        if leb input_size s.position
        then done tt (overflow (record s { world = w }))
        else if b == 10
        then parsed
        else rest

    -- `while (client.readBytes(buffer, 1) == 1)`, at most `fuel` rounds of it.
    unfoldable pub read_line : ℕ → Act (RidenScpi S D) (Unit {0})
    read_line zero s = waiting
    read_line (suc fuel) s = line_round (read_line fuel) (S.read_byte s.world) s

    -- `Check for new client connecting`.
    abbrev pub take_client : RidenScpi S D → RidenScpi S D
    take_client s =
        let (new, w) = S.accept s.world in
        if new
        then if S.client w
          then record s { world = S.stop_new w }
          else reset_buffers (record s { world = S.keep_new w })
        else record s { world = w }

    -- `Check for incoming data`: the position is at most 256, so 257 rounds are enough.
    abbrev pub take_data : Act (RidenScpi S D) (Unit {0})
    take_data s =
        let line = read_line 257 s in
        if S.client s.world && ltb 0 (S.available s.world) then line else done tt s

    -- `Stop client which disconnects`.
    abbrev pub drop_client : RidenScpi S D → RidenScpi S D
    drop_client s =
        if S.client s.world && not (S.connected s.world)
        then record s { world = S.stop s.world }
        else s

    unfoldable pub loop : Act (RidenScpi S D) (Unit {0})
    loop s =
        let served = (take_data >> modify drop_client) (take_client s) in
        let dropped = record s { world = S.stop s.world } in
        if s.external_control then done tt (if S.client s.world then dropped else s) else served
