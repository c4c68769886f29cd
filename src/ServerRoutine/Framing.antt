-- ===== src/ServerRoutine/Framing.antt =====
-- What `handleClient` of MusicServer/src/serverRoutine.c makes of a stream: packets of
-- `encodePacket`, and streams that are none.
use music_server_app.Base.{
  ℕ, ◌+◌, ◌^◌, ◌≤◌, ◌<◌, ◌≡◌, ◌≢◌, ◌⊎◌, ◌∙◌, refl, true, false, some, List, ◌∷◌, ◌++◌, arith,
  if◌then◌else◌, ltb, ◌==◌, length, take, take-length_append, drop-length_append, length-append,
  length-take-le, u32_sub,
}
use music_server_app.Base.Run.{ok, fault, out_of_bounds, Returns}
use music_server_app.Packet.{
  ClntData, Header, header_size, signature_byte, encode_packet, decode_packet, decode_header,
}
use music_server_app.Packet.Bytes.{
  ByteOrder, byte, word, from_memory, ntohl, ntohl-from_memory, word-bytes,
}
use music_server_app.Packet.RoundTrip.{
  Carries, Carries-length, body, received, encode_packet-layout, decode_packet-body,
}
use music_server_app.ClientDb.{ClntMsg}
use music_server_app.ServerRoutine.{closed, posted, receive_body, receive_packet, max_packet}

decode_header_short :
    (order : ByteOrder) (buf : List ℕ) (head : Header)
    → length buf < 7
    → decode_header order buf head ≡ fault out_of_bounds
unfolding decode_header
decode_header_short order (a ∷ b ∷ c ∷ d ∷ e ∷ f ∷ g ∷ r) head h = absurd (omega arith)
decode_header_short order _ head h = refl

module _ (receiver : ByteOrder) (into : ClntMsg) where
  receive_body-body :
      (head : Header) (content rest : List ℕ) (size : ℕ)
      → size ≡ 7 + length content
      → length content < 2 ^ 31
      → head.token < 2 ^ 32
      → receive_body receiver into size (body head content ++ rest)
        ≡ ok (
            posted
              (record into {
                clnt_data = record into.clnt_data {
                  header = record into.clnt_data.header {
                    msg_id = head.msg_id;
                    clnt_id = head.clnt_id;
                    token = head.token;
                    is_last = head.is_last;
                  };
                  payload = if length content == 0 then into.clnt_data.payload else some content;
                  payload_size = length content;
                };
              })
              rest)
  unfolding receive_body
  receive_body-body head content rest size e short tok =
      let long : ltb (length (body head content ++ rest)) size ≡ false =
        ground (arith, length-append content rest) in
      let same : size ≡ length (body head content) = omega arith in
      rw (
        long,
        same,
        take-length_append (body head content) rest,
        drop-length_append (body head content) rest,
        decode_packet-body receiver head into.clnt_data content (length (body head content)) short
            tok (omega arith),
      )

  receive_body_short :
      (stream : List ℕ) (size : ℕ)
      → size < 7
      → size ≤ length stream
      → receive_body receiver into size stream ≡ fault out_of_bounds
  unfolding receive_body decode_packet
  receive_body_short stream size h there =
      let enough : ltb (length stream) size ≡ false = ground arith in
      rw (
        enough,
        decode_header_short receiver (take size stream) into.clnt_data.header
            (omega (arith, length-take-le size stream)),
      )

  read_total :
      (total : ℕ)
      → total < 2 ^ 32
      → ntohl receiver
          (from_memory receiver (byte 3 total) (byte 2 total) (byte 1 total) (byte 0 total))
        ≡ total
  read_total total h =
      ntohl-from_memory receiver (byte 3 total) (byte 2 total) (byte 1 total) (byte 0 total)
        (omega arith) (omega arith) (omega arith) (omega arith)
      ∙ word-bytes total h

  -- A packet of at most 4096 bytes with the signature of the server comes to the resource manager
  -- as the message that was sent, whatever follows it and whatever the byte order of either host.
  pub receive_packet-encode_packet :
      (sender : ByteOrder) (msg : ClntData) (content rest : List ℕ)
      → Carries msg content
      → header_size + msg.payload_size ≤ max_packet
      → msg.token < 2 ^ 32
      → msg.signature ≡ signature_byte
      → Returns
          (λ (sent, packet).
            receive_packet receiver into (packet ++ rest)
            ≡ ok (posted (record into { clnt_data = received into.clnt_data msg content }) rest))
          (encode_packet sender msg)
  unfolding receive_packet
  receive_packet-encode_packet sender msg content rest c fits tok sig =
      let size = Carries-length c in
      let total : ℕ = header_size + msg.payload_size in
      let read : ntohl receiver
            (from_memory receiver (byte 3 total) (byte 2 total) (byte 1 total) (byte 0 total))
          ≡ total =
        read_total total (omega arith) in
      let signed : (msg.signature == signature_byte) ≡ true = ground arith in
      let small : ltb max_packet total ≡ false = ground arith in
      rw (encode_packet-layout sender msg content c (omega arith), signed, read, small)
        (receive_body-body msg.header content rest (u32_sub total 5) (omega arith) (omega arith)
          tok)

  -- Too few bytes for signature and length, a foreign signature, or a length above 4096: the
  -- connection is closed.
  pub receive_packet_refuses :
      (sig s0 s1 s2 s3 : ℕ) (stream : List ℕ)
      → s0 < 256
      → s1 < 256
      → s2 < 256
      → s3 < 256
      → (sig ≢ signature_byte) ⊎ (max_packet < word s0 s1 s2 s3)
      → receive_packet receiver into (sig ∷ s0 ∷ s1 ∷ s2 ∷ s3 ∷ stream) ≡ ok closed
  unfolding receive_packet
  receive_packet_refuses sig s0 s1 s2 s3 stream h0 h1 h2 h3 bad =
      rw (ntohl-from_memory receiver s0 s1 s2 s3 h0 h1 h2 h3) (ground arith)

  -- A length of 5 to 11 with as many bytes behind it: `decodeHeader` reads past the buffer.
  pub receive_packet_overreads :
      (s0 s1 s2 s3 : ℕ) (stream : List ℕ)
      → s0 < 256
      → s1 < 256
      → s2 < 256
      → s3 < 256
      → 5 ≤ word s0 s1 s2 s3
      → word s0 s1 s2 s3 < header_size
      → word s0 s1 s2 s3 ≤ 5 + length stream
      → receive_packet receiver into (signature_byte ∷ s0 ∷ s1 ∷ s2 ∷ s3 ∷ stream)
        ≡ fault out_of_bounds
  unfolding receive_packet
  receive_packet_overreads s0 s1 s2 s3 stream h0 h1 h2 h3 low short there =
      let small : ltb max_packet (word s0 s1 s2 s3) ≡ false = ground arith in
      rw (ntohl-from_memory receiver s0 s1 s2 s3 h0 h1 h2 h3, small)
        (receive_body_short stream (u32_sub (word s0 s1 s2 s3) 5) (omega arith) (omega arith))
