-- ===== src/Packet/Resend.antt =====
-- `encodePacket` of Common/src/packet.c applied twice to one message: it leaves `totalSize` and
-- `token` of the message in network order, so the next call starts from those.
use music_server_app.Base.{ℕ, ◌+◌, ◌-◌, ◌^◌, ◌<◌, ◌≡◌, refl, some, List, arith, g_ok, length, drop}
use music_server_app.Base.Run.{ok, Returns}
use music_server_app.Packet.Bytes.{
  ByteOrder, little, swap_bytes, htonl, swap_bytes-lt, swap_bytes_twice,
}
use music_server_app.Packet.{ClntData, header_size, encode_packet, decode_packet}
use music_server_app.Packet.RoundTrip.{
  Carries, encoded, received, encode_packet-layout, decode_packet-encode_packet, layout,
}

pub htonl-lt : (order : ByteOrder) (v : ℕ) → v < 2 ^ 32 → htonl order v < 2 ^ 32
unfolding htonl
htonl-lt ByteOrder.little v h = swap_bytes-lt v
htonl-lt ByteOrder.big v h = h

pub htonl_twice : (order : ByteOrder) (v : ℕ) → v < 2 ^ 32 → htonl order (htonl order v) ≡ v
unfolding htonl
htonl_twice ByteOrder.little v h = swap_bytes_twice v h
htonl_twice ByteOrder.big v h = refl

pub Carries-encoded :
    (order : ByteOrder) {msg : ClntData} {content : List ℕ}
    → Carries msg content
    → Carries (encoded order msg) content
Carries-encoded order (Carries.empty e n) = Carries.empty e n
Carries-encoded order (Carries.full p n) = Carries.full p n

module _ (order : ByteOrder) (msg : ClntData) (content : List ℕ) (c : Carries msg content)
    (short : msg.payload_size < 2 ^ 31) (tok : msg.token < 2 ^ 32) where
  -- The second packet differs from the first in the token alone, which is `htonl` of the first's,
  -- and the message is again as before the first call, but for its total size.
  pub encode_packet-encode_packet :
      encode_packet order (encoded order msg)
      ≡ ok (
        record msg {
          header = record msg.header { total_size = htonl order (header_size + msg.payload_size) };
        },
        layout
            (record msg.header { token = htonl order msg.token })
            (header_size + msg.payload_size)
            content,
      )
  encode_packet-encode_packet = rw (
    encode_packet-layout order (encoded order msg) content (Carries-encoded order c) (omega arith),
    htonl_twice order msg.token tok,
  )

-- On a little-endian host the second client that is sent a message reads the token with its bytes
-- reversed, and all else as it was sent.
pub decode_packet_resent :
    (receiver : ByteOrder) (msg into : ClntData) (content : List ℕ)
    → Carries msg content
    → msg.payload_size < 2 ^ 31
    → Returns
        (λ (again, packet).
          decode_packet receiver into (some (drop 5 packet)) (length packet - 5)
          ≡ ok (
            g_ok,
            received into
                (record msg { header = record msg.header { token = swap_bytes msg.token } })
                content,
          ))
        (encode_packet little (encoded little msg))
unfolding htonl
decode_packet_resent receiver msg into content c short =
    decode_packet-encode_packet little receiver (encoded little msg) into content
      (Carries-encoded little c) short (swap_bytes-lt msg.token)
