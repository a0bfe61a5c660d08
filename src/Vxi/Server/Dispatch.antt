-- ===== src/Vxi/Server/Dispatch.antt =====
-- `handle_packet` runs the method of the command that the protocol reads in the packet.
use riden_dongle.Base.{ℕ, Bool, false, true, inl, inr, ◌==◌, Bool-cases}
use riden_dongle.Base.Memory.{slice}
use riden_dongle.Vxi.Words.{get_word}
use riden_dongle.Vxi.Net.{Net, Handler, Run, ◌>>◌, return}
use riden_dongle.Vxi.Server.{
  VxiServer, create_link, destroy_link, read, write, refuse, handle_packet,
}
use riden_dongle.Vxi.Protocol.{
  Command, link, query, submit, unlink, refused, command_of, right_trim,
}

-- What holds of every command with the run of its method holds of the packet with `handle_packet`.
pub dispatch {ℓ} :
    {N : Net} {H : Handler} (polls : ℕ) (s : VxiServer N H)
    (P : Command → Run (VxiServer N H) Bool → Type ℓ)
    → P link ((create_link polls >> return false) s)
    → P query ((read polls >> return false) s)
    → P
        (submit
          (right_trim (slice s.connection.read_buffer 64 (get_word s.connection.read_buffer 60)))
          (get_word s.connection.read_buffer 60))
        ((write polls >> return false) s)
    → P unlink ((destroy_link polls >> return true) s)
    → ((rc : ℕ) → P (refused rc) (refuse polls rc s))
    → P (command_of s.connection.read_buffer) (handle_packet polls s)
unfolding handle_packet
dispatch polls s P on_link on_query on_submit on_unlink on_refused =
    let b = s.connection.read_buffer in
    elim (Bool-cases (get_word b 16 == 395183)) [
      | inr other ↦ rw other (on_refused 1)
      | inl core ↦ elim (Bool-cases (get_word b 24 == 10)) [
        | inl n₀ ↦ rw (core, n₀) on_link
        | inr n₀ ↦ elim (Bool-cases (get_word b 24 == 12)) [
          | inl n₁ ↦ rw (core, n₀, n₁) on_query
          | inr n₁ ↦ elim (Bool-cases (get_word b 24 == 11)) [
            | inl n₂ ↦ rw (core, n₀, n₁, n₂) on_submit
            | inr n₂ ↦ elim (Bool-cases (get_word b 24 == 23)) [
              | inl n₃ ↦ rw (core, n₀, n₁, n₂, n₃) on_unlink
              | inr n₃ ↦ rw (core, n₀, n₁, n₂, n₃) (on_refused 3)
            ]
          ]
        ]
      ]
    ]
