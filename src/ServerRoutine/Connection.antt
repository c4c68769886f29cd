-- ===== src/ServerRoutine/Connection.antt =====
-- `handleClient` of MusicServer/src/serverRoutine.c on a socket, with its two calls of `receiveData`.
use music_server_app.Base.{
  ℕ, ◌≡◌, refl, ap, ◌∙◌, inl, inr, true, false, not, some, List, [], ◌∷◌, arith, if◌then◌else◌, ltb,
  ◌==◌, u32_sub, length, take, drop, Bool-cases, length-take, take_whole, Outcome,
}
use music_server_app.Base.Run.{Run, ok, fault, out_of_bounds, ◌>>=◌, Returns-value}
use music_server_app.Packet.{ClntData, signature_byte, decode_packet}
use music_server_app.Packet.Bytes.{ByteOrder, from_memory, ntohl}
use music_server_app.ClientDb.{ClntMsg}
use music_server_app.Socket.{Event, Moved, receive_data}
use music_server_app.Socket.Receive.{Delivers, receive_data-Takes}
use music_server_app.ServerRoutine.{
  Handled, closed, posted, receive_body, receive_packet, max_packet,
}

-- The connection is closed, or the message posted with what the socket still does.
pub data OnSocket : Type 0 where
  hung_up : OnSocket
  passed_on : ClntMsg → List Event → OnSocket

unfoldable pub handle_body : ByteOrder → ClntMsg → ℕ → List Event → Run OnSocket
handle_body order msg size es = do
  body ← receive_data es size
  if ltb body.answer size then ok hung_up else (do
    (_, decoded) ← decode_packet order msg.clnt_data (some body.bytes) size
    ok (passed_on (record msg { clnt_data = decoded }) body.rest))

-- The five bytes of `buf`.
unfoldable pub handle_head : ByteOrder → ClntMsg → List ℕ → List Event → Run OnSocket
handle_head order msg (sig ∷ s0 ∷ s1 ∷ s2 ∷ s3 ∷ _) es =
    if not (sig == signature_byte)
    then ok hung_up
    else (let total = ntohl order (from_memory order s0 s1 s2 s3) in
        if ltb max_packet total then ok hung_up else handle_body order msg (u32_sub total 5) es)
handle_head order msg _ es = fault out_of_bounds

unfoldable pub handle_client : ByteOrder → ClntMsg → List Event → Run OnSocket
handle_client order msg es = do
  head ← receive_data es 5
  if ltb head.answer 5 then ok hung_up else handle_head order msg head.bytes head.rest

-- The same as on a stream of bytes.
abbrev pub Agrees : Run OnSocket → Run Handled → Type 0
Agrees (ok hung_up) (ok closed) = Unit {0}
Agrees (ok (passed_on m es)) (ok (posted m' rest)) = (m ≡ m') × Delivers es rest
Agrees (fault e) (fault f) = e ≡ f
Agrees _ _ = ⊥

module _ (order : ByteOrder) (msg : ClntMsg) where
  Agrees-decoded :
      (r : Run (Outcome × ClntData)) {es : List Event} {rest : List ℕ}
      → Delivers es rest
      → Agrees
          (do (_, decoded) ← r; ok (passed_on (record msg { clnt_data = decoded }) es))
          (do (_, decoded) ← r; ok (posted (record msg { clnt_data = decoded }) rest))
  Agrees-decoded (ok (res, decoded)) d = (refl, d)
  Agrees-decoded (fault e) d = refl

  handle_body-Agrees :
      {es : List Event} {stream : List ℕ}
      → Delivers es stream
      → (size : ℕ) → Agrees (handle_body order msg size es) (receive_body order msg size stream)
  unfolding handle_body receive_body
  handle_body-Agrees {es} {stream} d size =
      let (m, e, (answer, bytes, rest)) =
        Returns-value _ (receive_data es size) (receive_data-Takes d size) in
      elim (Bool-cases (ltb (length stream) size)) [
        | inl short ↦
            let few : ltb m.answer size ≡ true =
              ground (arith, answer ∙ ap length (take_whole size stream (ground (arith, short)))) in
            rw (e, short, few) tt
        | inr enough ↦
            let all : ltb m.answer size ≡ false = ground (arith, answer, length-take size stream) in
            rw (e, enough, all, bytes)
              (Agrees-decoded (decode_packet order msg.clnt_data (some (take size stream)) size)
                rest)
      ]

  handle_head-Agrees :
      {es : List Event} {rest : List ℕ}
      → Delivers es rest
      → (sig s0 s1 s2 s3 : ℕ)
      → Agrees
          (handle_head order msg (sig ∷ s0 ∷ s1 ∷ s2 ∷ s3 ∷ []) es)
          (receive_packet order msg (sig ∷ s0 ∷ s1 ∷ s2 ∷ s3 ∷ rest))
  unfolding handle_head receive_packet
  handle_head-Agrees {es} {rest} d sig s0 s1 s2 s3 = elim (Bool-cases (sig == signature_byte)) [
    | inr foreign ↦ rw foreign tt
    | inl known ↦ elim (Bool-cases (ltb max_packet (ntohl order (from_memory order s0 s1 s2 s3)))) [
      | inl large ↦ rw (known, large) tt
      | inr fits ↦
          rw (known, fits)
            (handle_body-Agrees d (u32_sub (ntohl order (from_memory order s0 s1 s2 s3)) 5))
    ]
  ]

  -- On a connection that brings a stream in pieces of any size, `handleClient` does what it does on
  -- the stream: it closes the connection, posts the same message and leaves the rest of the stream,
  -- or reads past its buffer.
  pub handle_client-Agrees :
      {es : List Event} {stream : List ℕ}
      → Delivers es stream
      → Agrees (handle_client order msg es) (receive_packet order msg stream)
  unfolding handle_client receive_packet
  handle_client-Agrees {es} {stream} d =
      let (m, e, (answer, bytes, rest)) =
        Returns-value _ (receive_data es 5) (receive_data-Takes d 5) in
      go stream m e answer bytes rest
    where
      go :
          (stream : List ℕ) (m : Moved)
          → receive_data es 5 ≡ ok m
          → m.answer ≡ length (take 5 stream)
          → m.bytes ≡ take 5 stream
          → Delivers m.rest (drop 5 stream)
          → Agrees (handle_client order msg es) (receive_packet order msg stream)
      go (sig ∷ s0 ∷ s1 ∷ s2 ∷ s3 ∷ rest) m e answer bytes d5 =
          rw (e, answer, bytes) (handle_head-Agrees d5 sig s0 s1 s2 s3)
      go [] m e answer bytes d5 = rw (e, answer) tt
      go (a ∷ []) m e answer bytes d5 = rw (e, answer) tt
      go (a ∷ b ∷ []) m e answer bytes d5 = rw (e, answer) tt
      go (a ∷ b ∷ c ∷ []) m e answer bytes d5 = rw (e, answer) tt
      go (a ∷ b ∷ c ∷ f ∷ []) m e answer bytes d5 = rw (e, answer) tt
