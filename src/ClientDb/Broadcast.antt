-- ===== src/ClientDb/Broadcast.antt =====
-- `sendOneUpdateToAllClient` of MusicServer/src/clientdb.c, where every client can be reached: who is
-- told, in which order, and in which bytes.
use music_server_app.Base.{
  ℕ, zero, suc, ◌+◌, ◌^◌, ◌<◌, ◌≡◌, refl, ◌∙◌, inl, inr, Bool, true, false, not, ◌&&◌, ◌||◌, List,
  [], ◌∷◌, arith, if◌then◌else◌, ◌==◌, Bool-cases, lt→ltb, max_client,
}
use music_server_app.Base.Run.{ok, Returns}
use music_server_app.Packet.{ClntData, header_size, encode_packet, client_current_playing_m}
use music_server_app.Packet.Bytes.{ByteOrder, htonl}
use music_server_app.Packet.RoundTrip.{Carries, layout, encoded, encode_packet-layout}
use music_server_app.Packet.Resend.{htonl_twice}
use music_server_app.ClientDb.{Server, ClientState, is_unregistered}
use music_server_app.ClientDb.Notify.{
  connect_to_client, transmit, send_one_update, send_to_client, is_skipped, notify_client,
  notify_clients, run_send_one_update_to_all_client,
}

-- A registered client is told, but for the one whom the message is about; that one is told only
-- which song plays.
abbrev pub is_told : (ℕ → ClientState) → ClntData → ℕ → Bool
is_told states msg i =
    not (is_unregistered (states i))
    && (not (i == msg.clnt_id) || msg.msg_id == client_current_playing_m)

-- Of `k` clients from `i` on, those who are told.
abbrev pub told : ℕ → ℕ → (ℕ → ClientState) → ClntData → List ℕ
told zero i states msg = []
told (suc k) i states msg =
    if is_told states msg i then i ∷ told k (i + 1) states msg else told k (i + 1) states msg

-- The token, or `htonl` of it for every second packet.
abbrev pub turned : ByteOrder → Bool → ℕ → ℕ
turned order true token = htonl order token
turned order false token = token

module _ (order : ByteOrder) (msg : ClntData) (content : List ℕ) where
  abbrev pub packet : Bool → List ℕ
  packet turn =
      layout (record msg.header { token = turned order turn msg.token })
        (header_size + msg.payload_size) content

  -- The outbox, its newest packet first, once these clients have been told in this order.
  abbrev pub delivered : Bool → (ℕ → ℕ) → List ℕ → List (ℕ × List ℕ) → List (ℕ × List ℕ)
  delivered turn ips [] out = out
  delivered turn ips (i ∷ is) out = delivered (not turn) ips is ((ips i, packet turn) ∷ out)

  -- What `encodePacket` has made of the message, but for its total size.
  record Turned (turn : Bool) (m : ClntData) : Type 0 where
    same_id : m.msg_id ≡ msg.msg_id
    same_client : m.clnt_id ≡ msg.clnt_id
    same_signature : m.signature ≡ msg.signature
    same_last : m.is_last ≡ msg.is_last
    same_payload : m.payload ≡ msg.payload
    same_size : m.payload_size ≡ msg.payload_size
    token_is : m.token ≡ turned order turn msg.token

  Turned-encoded :
      (turn : Bool) (m : ClntData)
      → msg.token < 2 ^ 32
      → Turned turn m
      → Turned (not turn) (encoded order m)
  Turned-encoded turn m tok t = record {
    same_id = t.same_id;
    same_client = t.same_client;
    same_signature = t.same_signature;
    same_last = t.same_last;
    same_payload = t.same_payload;
    same_size = t.same_size;
    token_is = rw t.token_is (again turn);
  }
    where
      again :
          (turn : Bool)
          → htonl order (turned order turn msg.token) ≡ turned order (not turn) msg.token
      again true = htonl_twice order msg.token tok
      again false = refl

  Turned-Carries :
      (turn : Bool) (m : ClntData) → Turned turn m → Carries msg content → Carries m content
  Turned-Carries turn m t (Carries.empty e n) = Carries.empty e (t.same_size ∙ n)
  Turned-Carries turn m t (Carries.full p n) = Carries.full (t.same_payload ∙ p) (t.same_size ∙ n)

  encode_packet-Turned :
      (turn : Bool) (m : ClntData)
      → Turned turn m
      → Carries msg content
      → msg.payload_size < 2 ^ 31
      → encode_packet order m ≡ ok (encoded order m, packet turn)
  encode_packet-Turned turn m t c short =
      let size = t.same_size in
      rw (encode_packet-layout order m content (Turned-Carries turn m t c) (omega arith))
        (rw (t.same_id, t.same_client, t.same_signature, t.same_last, t.same_size, t.token_is))

-- Every connection and every transmission succeeds.
pub record Reaches (s : Server) : Type 0 where
  pub connected : (n ip : ℕ) → s.env.connects n ip ≡ true
  pub sent : (n : ℕ) → s.env.sends n ≡ true

-- The server after one more packet.
abbrev told_one : Server → ℕ → List ℕ → Server
told_one s i bytes = record s {
  network_calls = suc (suc s.network_calls);
  outbox = (s.client_ip i, bytes) ∷ s.outbox;
}

module _ (msg : ClntData) (content : List ℕ) (c : Carries msg content)
    (short : msg.payload_size < 2 ^ 31) (tok : msg.token < 2 ^ 32) where
  send_to_client-Turned :
      (s : Server) (i : ℕ) (turn : Bool) (m : ClntData)
      → i < max_client
      → Reaches s
      → Turned s.env.order msg content turn m
      → send_to_client s i m
        ≡ ok (encoded s.env.order m, told_one s i (packet s.env.order msg content turn))
  unfolding send_to_client connect_to_client send_one_update transmit
  send_to_client-Turned s i turn m near reach t = rw (
    lt→ltb _ _ near,
    reach.connected s.network_calls (s.client_ip i),
    encode_packet-Turned s.env.order msg content turn m t c short,
    reach.sent (suc s.network_calls),
  )

  is_skipped-is_told :
      (s : Server) (i : ℕ) (turn : Bool) (m : ClntData)
      → Turned s.env.order msg content turn m
      → is_skipped s i m ≡ not (is_told s.client_state msg i)
  is_skipped-is_told s i turn m t = rw (t.same_client, t.same_id) (ground arith)

  notify_clients-delivered :
      (k i : ℕ) (turn : Bool) (m : ClntData) (s : Server)
      → i + k < suc max_client
      → Reaches s
      → Turned s.env.order msg content turn m
      → Returns
          (λ s'.
            (s'.outbox
              ≡ delivered s.env.order msg content turn s.client_ip
                  (told k i s.client_state msg)
                  s.outbox)
            × (s'.cdb ≡ s.cdb)
            × (s'.pl ≡ s.pl)
            × (s'.jobs ≡ s.jobs))
          (notify_clients k i m s)
  unfolding notify_clients notify_client
  notify_clients-delivered zero i turn m s near reach t = (refl, refl, refl, refl)
  notify_clients-delivered (suc k) i turn m s near reach t =
      elim (Bool-cases (is_told s.client_state msg i)) [
        | inl e ↦
            rw
              (
                is_skipped-is_told s i turn m t,
                e,
                send_to_client-Turned s i turn m (omega arith) reach t,
              )
              (notify_clients-delivered k (i + 1) (not turn) (encoded s.env.order m)
                (told_one s i (packet s.env.order msg content turn)) (omega arith)
                (record { connected = reach.connected; sent = reach.sent })
                (Turned-encoded s.env.order msg content turn m tok t))
        | inr e ↦
            rw (is_skipped-is_told s i turn m t, e)
              (notify_clients-delivered k (i + 1) turn m s (omega arith) reach t)
      ]

  -- Where all clients can be reached, `sendOneUpdateToAllClient` ends and has sent one packet to
  -- each registered client, in the order of their numbers, but not to the one whom the message is
  -- about unless it tells which song plays. Every second packet has `htonl` of the token in place of
  -- the token. Clients, requests and jobs are as they were.
  pub send_one_update_to_all_client_lem :
      (s : Server)
      → Reaches s
      → Returns
          (λ s'.
            (s'.outbox
              ≡ delivered s.env.order msg content false s.client_ip
                  (told max_client 0 s.client_state msg)
                  s.outbox)
            × (s'.cdb ≡ s.cdb)
            × (s'.pl ≡ s.pl)
            × (s'.jobs ≡ s.jobs))
          (run_send_one_update_to_all_client s msg)
  unfolding run_send_one_update_to_all_client
  send_one_update_to_all_client_lem s reach =
      notify_clients-delivered max_client 0 false msg s (omega arith) reach (record {
        same_id = refl;
        same_client = refl;
        same_signature = refl;
        same_last = refl;
        same_payload = refl;
        same_size = refl;
        token_is = refl;
      })
