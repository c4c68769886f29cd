-- ===== src/Examples/Packets.antt =====
-- Packets of Common/src/packet.c.
use music_server_app.Base.{◌-◌, ◌≡◌, refl, some, [], ◌∷◌, drop, length, arith, g_ok}
use music_server_app.Base.Run.{ok, Returns}
use music_server_app.Packet.{encode_packet, decode_packet}
use music_server_app.Packet.Bytes.{little, swap_bytes}
use music_server_app.Packet.RoundTrip.{Carries, full, encoded, received, encode_packet-layout}
use music_server_app.Packet.Resend.{decode_packet_resent}
use music_server_app.Examples.World.{add_message, blank_message, song_bytes}

content : Carries add_message song_bytes
content = full refl refl

encode_packet-layout_example :
    encode_packet little add_message
    ≡ ok (
      encoded little add_message,
      0x55 ∷ 0 ∷ 0 ∷ 0 ∷ 16 ∷ 3 ∷ 3 ∷ 1 ∷ 2 ∷ 3 ∷ 4 ∷ 1 ∷ b's' ∷ b'o' ∷ b'n' ∷ b'g' ∷ [],
    )
encode_packet-layout_example =
    encode_packet-layout little add_message song_bytes content (omega arith)

decode_packet_resent_example :
    Returns
      (λ (again, packet).
        decode_packet little blank_message (some (drop 5 packet)) (length packet - 5)
        ≡ ok (
          g_ok,
          received blank_message
              (record add_message {
                header = record add_message.header { token = swap_bytes 0x01020304 };
              })
              song_bytes,
        ))
      (encode_packet little (encoded little add_message))
decode_packet_resent_example =
    decode_packet_resent little add_message blank_message song_bytes content (omega arith)

-- The token 0x01020304 arrives as 0x04030201.
swapped : swap_bytes 0x01020304 ≡ 0x04030201
unfolding swap_bytes
swapped = refl
