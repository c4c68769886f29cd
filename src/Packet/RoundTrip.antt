-- ===== src/Packet/RoundTrip.antt =====
-- The packet that Common/src/packet.c puts on the wire, and what the receiver reads from it.
use music_server_app.Base.{
  ℕ, ◌+◌, ◌-◌, ◌^◌, ◌<◌, ◌≡◌, refl, some, List, [], ◌∷◌, ◌++◌, arith, g_ok, if◌then◌else◌, ◌==◌,
  length, drop, take-length, lt→ltb, u32_add,
}
use music_server_app.Base.Run.{ok, Returns}
use music_server_app.Packet.Bytes.{
  ByteOrder, big_endian, byte, memory-htonl, htonl, ntohl-from_memory, word-bytes,
}
use music_server_app.Packet.{
  ClntData, header_size, decoded_header_size, encode_packet, copy_payload, decode_packet,
  decode_header, decode_payload, Header,
}

-- The message carries `content`: its pointer leads there, or there is nothing to carry.
pub data Carries (msg : ClntData) (content : List ℕ) : Type 0 where
  empty : content ≡ [] → msg.payload_size ≡ 0 → Carries msg content
  full : msg.payload ≡ some content → msg.payload_size ≡ length content → Carries msg content

pub Carries-length :
    {msg : ClntData} {content : List ℕ} → Carries msg content → msg.payload_size ≡ length content
Carries-length (Carries.empty e n) = ground arith
Carries-length (Carries.full p n) = n

copy_payload_lem :
    {msg : ClntData} {content : List ℕ}
    → Carries msg content
    → copy_payload msg.payload msg.payload_size ≡ ok content
unfolding copy_payload
copy_payload_lem (Carries.empty e n) = rw (n, e)
copy_payload_lem {content = []} (Carries.full p n) = rw n
copy_payload_lem {content = x ∷ xs} (Carries.full p n) = rw (p, n) (ground (arith, take-length xs))

-- Header and content in the order that the comment above `encodeHeader` gives.
abbrev pub layout : Header → ℕ → List ℕ → List ℕ
layout head total content =
    head.signature
    ∷ (big_endian total
        ++ (head.msg_id ∷ head.clnt_id ∷ (big_endian head.token ++ (head.is_last ∷ content))))

-- The message once it is encoded.
abbrev pub encoded : ByteOrder → ClntData → ClntData
encoded order msg = record msg {
  header = record msg.header {
    total_size = htonl order (header_size + msg.payload_size);
    token = htonl order msg.token;
  };
}

-- Whatever the byte order of the host, the packet has the documented layout with its total size and
-- its token in network order. `encodePacket` leaves those two words of the message in network
-- order.
pub encode_packet-layout :
    (order : ByteOrder) (msg : ClntData) (content : List ℕ)
    → Carries msg content
    → header_size + msg.payload_size < 2 ^ 32
    → encode_packet order msg
      ≡ ok (encoded order msg, layout msg.header (header_size + msg.payload_size) content)
unfolding encode_packet
encode_packet-layout order msg content c fits =
    let same : u32_add header_size msg.payload_size ≡ header_size + msg.payload_size =
      omega arith in
    rw (lt→ltb _ _ fits, copy_payload_lem c, same) (simp memory-htonl)

-- What the receiver has after `decodePacket`: all but the two words that come before.
abbrev pub received : ClntData → ClntData → List ℕ → ClntData
received into msg content = record into {
  header = record into.header {
    msg_id = msg.msg_id;
    clnt_id = msg.clnt_id;
    token = msg.token;
    is_last = msg.is_last;
  };
  payload = if length content == 0 then into.payload else some content;
  payload_size = length content;
}

decode_header-layout :
    (order : ByteOrder) (head into : Header) (content : List ℕ)
    → head.token < 2 ^ 32
    → decode_header order
        (head.msg_id ∷ head.clnt_id ∷ (big_endian head.token ++ (head.is_last ∷ content)))
        into
      ≡ ok (record into {
        msg_id = head.msg_id;
        clnt_id = head.clnt_id;
        token = head.token;
        is_last = head.is_last;
      })
unfolding decode_header
decode_header-layout order head into content h = rw (
  ntohl-from_memory order (byte 3 head.token) (byte 2 head.token) (byte 1 head.token)
      (byte 0 head.token) (omega arith) (omega arith) (omega arith) (omega arith),
  word-bytes head.token h,
)

decode_payload-content :
    (msg : ClntData) (buf content : List ℕ) (size : ℕ)
    → size ≡ length content
    → drop decoded_header_size buf ≡ content
    → length buf ≡ decoded_header_size + length content
    → length content < 2 ^ 31
    → decode_payload msg buf size
      ≡ ok (
        g_ok,
        record msg {
          payload = if length content == 0 then msg.payload else some content;
          payload_size = length content;
        },
      )
unfolding decode_payload
decode_payload-content msg buf [] size e d l h = rw e
decode_payload-content msg buf (x ∷ xs) size e d l h = rw (d, l, e) (ground (arith, take-length xs))

-- What follows signature and length.
abbrev pub body : Header → List ℕ → List ℕ
body head content = head.msg_id ∷ head.clnt_id ∷ (big_endian head.token ++ (head.is_last ∷ content))

pub decode_packet-body :
    (receiver : ByteOrder) (head : Header) (into : ClntData) (content : List ℕ) (size : ℕ)
    → length content < 2 ^ 31
    → head.token < 2 ^ 32
    → size ≡ decoded_header_size + length content
    → decode_packet receiver into (some (body head content)) size
      ≡ ok (
        g_ok,
        record into {
          header = record into.header {
            msg_id = head.msg_id;
            clnt_id = head.clnt_id;
            token = head.token;
            is_last = head.is_last;
          };
          payload = if length content == 0 then into.payload else some content;
          payload_size = length content;
        },
      )
unfolding decode_packet
decode_packet-body receiver head into content size short tok e =
    rw (decode_header-layout receiver head into.header content tok)
      (decode_payload-content _ _ content _ (omega arith) refl (omega arith) short)

-- A receiver of either byte order that has read signature and length finds in the rest, of
-- `totalSize - 5` bytes, the message that the sender encoded.
pub decode_packet-encode_packet :
    (sender receiver : ByteOrder) (msg into : ClntData) (content : List ℕ)
    → Carries msg content
    → msg.payload_size < 2 ^ 31
    → msg.token < 2 ^ 32
    → Returns
        (λ (sent, packet).
          decode_packet receiver into (some (drop 5 packet)) (length packet - 5)
          ≡ ok (g_ok, received into msg content))
        (encode_packet sender msg)
decode_packet-encode_packet sender receiver msg into content c short tok =
    let size = Carries-length c in
    rw (encode_packet-layout sender msg content c (omega arith))
      (decode_packet-body receiver msg.header into content _ (omega arith) tok (omega arith))
