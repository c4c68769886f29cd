-- ===== src/ResourceManager/Fetched.antt =====
-- How `getMP3FileFromClient` of MusicServer/src/serverRoutine.c ends, from the connection to the
-- message for the manager.
use music_server_app.Base.{
  ℕ, suc, ◌-◌, ◌≤◌, ◌<◌, ◌≡◌, ◌≢◌, ◌⊎◌, inl, inr, refl, sym, ap, ◌∙◌, arith, Bool, true, false,
  Option, none, some, List, [], ◌∷◌, ◌++◌, if◌then◌else◌, ltb, ◌==◌, length, take, drop, Bool-cases,
  length-append, length-take, take-take-drop, Outcome, ltb→lt, max_client,
}
use music_server_app.Base.Run.{ok, Returns, Returns-value, Returns-bind, ◌>>=◌}
use music_server_app.Packet.{header_size}
use music_server_app.Packet.Bytes.{ByteOrder, from_memory, ntohl}
use music_server_app.Packet.RoundTrip.{empty, layout, encode_packet-layout}
use music_server_app.ClientDb.{Server, Mp3FileReq}
use music_server_app.ClientDb.Register.{deregister_client}
use music_server_app.ClientDb.Registry.{IsRegistry, Deregistered, deregister_client-IsRegistry}
use music_server_app.Socket.{Event, Moved, send_data, receive_data}
use music_server_app.Socket.Receive.{Delivers, receive_data-Takes}
use music_server_app.Socket.Send.{send_data-Sent, attempts}
use music_server_app.ResourceManager.{RManager, dw_complete}
use music_server_app.ResourceManager.Machine.{with_server, post_msg_to_rm}
use music_server_app.ResourceManager.Download.{
  Fetch, failed, file_request, max_file, overwrite, download_loop, download_file, read_size,
  ask_client, get_mp3_file_from_client,
}
use music_server_app.ResourceManager.Loaded.{Loaded, whole, part, download_loop-Loaded}

-- The stream announces a file of a size in range and brings all of it.
abbrev pub Arrives : ByteOrder → List ℕ → List ℕ → Type 0
Arrives order (b0 ∷ b1 ∷ b2 ∷ b3 ∷ stream) content =
    (ntohl order (from_memory order b0 b1 b2 b3) ≡ length content)
    × (0 < length content)
    × (length content ≤ max_file)
    × ((rest : List ℕ) × (content ++ rest ≡ stream))
Arrives order _ content = ⊥

-- What the client is to be sent.
abbrev pub request_bytes : Mp3FileReq → List ℕ
request_bytes req = layout (file_request req).header header_size []

abbrev pub after_connect : Server → Server
after_connect s = record s { network_calls = suc s.network_calls }

-- Exactly one message is posted, with the request: that the file is there, where the client can be
-- reached, has all of the request, sends a whole file and the file can be opened; otherwise that it
-- is not. A client that cannot be reached is deregistered.
pub data Fetched (rm : RManager) (req : Mp3FileReq) (opened : Option (List ℕ)) (stream : List ℕ)
    : Fetch → Type 0 where
  lost :
      {res : Outcome} {s : Server}
      → rm.server.env.connects rm.server.network_calls req.ipaddress ≡ false
      → IsRegistry s
      → Deregistered (after_connect rm.server) req.clnt_id s res
      → Fetched rm req opened stream (failed (with_server rm s) req [] none)
  broken :
      {sent : List ℕ} {file : Option (List ℕ)}
      → rm.server.env.connects rm.server.network_calls req.ipaddress ≡ true
      → (sent ≢ request_bytes req)
        ⊎ ((opened ≡ none) ⊎ ((content : List ℕ) → ¬ Arrives rm.server.env.order stream content))
      → Fetched rm req opened stream
          (failed (with_server rm (after_connect rm.server)) req sent file)
  complete :
      (content old : List ℕ)
      → rm.server.env.connects rm.server.network_calls req.ipaddress ≡ true
      → opened ≡ some old
      → Arrives rm.server.env.order stream content
      → Fetched rm req opened stream (record {
        manager = post_msg_to_rm (with_server rm (after_connect rm.server)) (dw_complete req);
        request = request_bytes req;
        file = some (overwrite old (rm.server.env.stores content));
      })

module _ (rm : RManager) (req : Mp3FileReq) where
  connected : RManager
  connected = with_server rm (after_connect rm.server)

  download_file-Fetched :
      rm.server.env.connects rm.server.network_calls req.ipaddress ≡ true
      → (opened : Option (List ℕ)) {es : List Event} {stream : List ℕ} (b0 b1 b2 b3 : ℕ)
      → Delivers es stream
      → (size : ℕ) → size ≡ ntohl rm.server.env.order (from_memory rm.server.env.order b0 b1 b2 b3)
      → 0 < size
      → size ≤ max_file
      → Returns (Fetched rm req opened (b0 ∷ b1 ∷ b2 ∷ b3 ∷ stream)) (
          download_file
            (with_server rm (after_connect rm.server))
            req
            (request_bytes req)
            opened
            es
            size)
  unfolding download_file
  download_file-Fetched up none b0 b1 b2 b3 d size e positive small = broken up (inr (inl refl))
  download_file-Fetched up (some old) {es} {stream} b0 b1 b2 b3 d size e positive small =
      Returns-bind (Loaded stream size []) _ (download_loop size es size []) _
        (download_loop-Loaded size d size [] (omega arith) (omega arith)) λ r l. go r l
    where
      all : size - 0 ≡ size
      all = omega arith

      go :
          (r : Bool × List ℕ)
          → Loaded stream size [] r
          → Returns (Fetched rm req (some old) (b0 ∷ b1 ∷ b2 ∷ b3 ∷ stream)) (
              ok (
                if r.0
                then record {
                  manager =
                      post_msg_to_rm (with_server rm (after_connect rm.server)) (dw_complete req);
                  request = request_bytes req;
                  file = some (overwrite old (rm.server.env.stores r.1));
                }
                else failed
                    (with_server rm (after_connect rm.server))
                    req
                    (request_bytes req)
                    (some (overwrite old (rm.server.env.stores r.1)))))
      go _ (whole h) =
          let long : size ≤ length stream = omega (arith, h) in
          let l = length-take size stream long in
          rw all (
            complete (take size stream) old up refl (
              sym e ∙ sym l,
              omega (arith, l, positive),
              omega (arith, l, small),
              (drop size stream, take-take-drop size stream),
            ))
      go _ (part h) = broken up (
          inr (
            inr λ content (named, _, _, (rest, same)).
              absurd (omega (arith, h, e, named, ap length same, length-append content rest))))

  read_size-Fetched :
      rm.server.env.connects rm.server.network_calls req.ipaddress ≡ true
      → (opened : Option (List ℕ)) {es : List Event} {stream : List ℕ} (b0 b1 b2 b3 : ℕ)
      → Delivers es stream
      → Returns (Fetched rm req opened (b0 ∷ b1 ∷ b2 ∷ b3 ∷ stream)) (
          read_size
            (with_server rm (after_connect rm.server))
            req
            (request_bytes req)
            opened
            (b0 ∷ b1 ∷ b2 ∷ b3 ∷ [])
            es)
  unfolding read_size
  read_size-Fetched up opened {es} {stream} b0 b1 b2 b3 d =
      let size : ℕ = ntohl rm.server.env.order (from_memory rm.server.env.order b0 b1 b2 b3) in
      elim (Bool-cases (size == 0)) [
        | inl e ↦ rw e (
            broken up (
              inr (
                inr
                  λ content (named, positive, _, _). absurd (ground (arith, e, named, positive)))))
        | inr nonzero ↦ elim (Bool-cases (ltb max_file size)) [
          | inl e ↦
              rw (nonzero, e)
                (broken up (
                  inr
                    (inr λ content (named, _, small, _). absurd (ground (arith, e, named, small)))))
          | inr e ↦
              rw (nonzero, e)
                (download_file-Fetched up opened b0 b1 b2 b3 d size refl (ground (arith, nonzero))
                  (ground (arith, e)))
        ]
      ]

  ask_client-Fetched :
      rm.server.env.connects rm.server.network_calls req.ipaddress ≡ true
      → (opened : Option (List ℕ)) (writes : List Event) {reads : List Event} {stream : List ℕ}
      → header_size ≤ attempts writes
      → Delivers reads stream
      → Returns
          (Fetched rm req opened stream)
          (ask_client (with_server rm (after_connect rm.server)) req opened writes reads)
  unfolding ask_client
  ask_client-Fetched up opened writes {reads} {stream} room d =
      let packed =
        encode_packet-layout rm.server.env.order (file_request req) [] (empty refl refl)
          (omega arith) in
      let (sent, e, s) =
        Returns-value _ (send_data writes (request_bytes req))
          (send_data-Sent writes (request_bytes req) room) in
      let (m, em, (answer, bytes, rest)) =
        Returns-value _ (receive_data reads 4) (receive_data-Takes d 4) in
      elim (Bool-cases (ltb sent.answer header_size)) [
        | inl less ↦ rw (packed, e, less, ◌>>=◌) (broken up (inl (s.missing (ltb→lt _ _ less))))
        | inr all ↦
            let asked : sent.bytes ≡ request_bytes req = s.whole (elim s.answer_is [
              | inl zero_is ↦ absurd (ground (arith, all, zero_is))
              | inr front_is ↦
                  ground
                    (arith, all, front_is, ap length s.front, length-append sent.bytes s.unsent)
            ]) in
            rw (packed, e, all, asked, em, ◌>>=◌) (go stream m answer bytes rest)
      ]
    where
      go :
          (stream : List ℕ) (m : Moved)
          → m.answer ≡ length (take 4 stream)
          → m.bytes ≡ take 4 stream
          → Delivers m.rest (drop 4 stream)
          → Returns (Fetched rm req opened stream) (
              if ltb m.answer 4
              then ok
                  (failed (with_server rm (after_connect rm.server)) req (request_bytes req) none)
              else read_size
                  (with_server rm (after_connect rm.server))
                  req
                  (request_bytes req)
                  opened
                  m.bytes
                  m.rest)
      go (b0 ∷ b1 ∷ b2 ∷ b3 ∷ stream) m answer bytes d4 =
          rw (answer, bytes) (read_size-Fetched up opened b0 b1 b2 b3 d4)
      go [] m answer bytes d4 = rw answer (broken up (inr (inr λ content a. a)))
      go (a ∷ []) m answer bytes d4 = rw answer (broken up (inr (inr λ content a. a)))
      go (a ∷ b ∷ []) m answer bytes d4 = rw answer (broken up (inr (inr λ content a. a)))
      go (a ∷ b ∷ c ∷ []) m answer bytes d4 = rw answer (broken up (inr (inr λ content a. a)))

  -- In a server whose registry is in order, for a client number in range and a socket that can be
  -- written for 12 rounds and brings some stream before it is closed, `getMP3FileFromClient` ends and
  -- posts exactly one message. It is that the file is there exactly where the client can be reached,
  -- has all of the request, announces a size in range and sends as many bytes, and the file can be
  -- opened; the file then holds what `write` stored of these bytes, whether or not it stored them all.
  -- A client that cannot be reached is deregistered, and only such a client.
  pub get_mp3_file_from_client-Fetched :
      IsRegistry rm.server
      → req.clnt_id < max_client
      → (opened : Option (List ℕ)) (writes : List Event) {reads : List Event} {stream : List ℕ}
      → header_size ≤ attempts writes
      → Delivers reads stream
      → Returns (Fetched rm req opened stream) (get_mp3_file_from_client rm req opened writes reads)
  unfolding get_mp3_file_from_client
  get_mp3_file_from_client-Fetched r near opened writes room d =
      elim (Bool-cases (rm.server.env.connects rm.server.network_calls req.ipaddress)) [
        | inl e ↦ rw e (ask_client-Fetched e opened writes room d)
        | inr e ↦ rw e (
            Returns-bind _ _ (deregister_client (after_connect rm.server) req.clnt_id) _
              (deregister_client-IsRegistry {s = after_connect rm.server}
                (record { sound = r.sound; vacant = r.vacant; distinct = r.distinct }) req.clnt_id
                near)
              λ v p. lost e p.0 p.1)
      ]
