-- ===== src/Startup.antt =====
-- MusicServer/src/server.c: the thread that accepts connections. What `accept` gives, time after time,
-- is a list: a descriptor with the client's address, or a failure.
use mathlib.Core.List.{append-nil, append_assoc}
use music_server_app.Base.{
  ℕ, ◌≤◌, ◌<◌, ◌+◌, ◌^◌, ◌≡◌, refl, sym, ap, ◌∙◌, Option, none, some, List, [], ◌∷◌, ◌++◌,
}
use music_server_app.Base.Run.{Run, ok, fault, ◌>>=◌}
use music_server_app.Packet.{ClntData, encode_packet, header_size, signature_byte}
use music_server_app.Packet.Bytes.{ByteOrder}
use music_server_app.Packet.RoundTrip.{Carries, received}
use music_server_app.ClientDb.{Server, ClntMsg, Job, handle_client, add_job_to_queue}
use music_server_app.Socket.{Event}
use music_server_app.Socket.Open.{SystemCalls, create_server_socket}
use music_server_app.Socket.Receive.{Delivers}
use music_server_app.ServerRoutine.{posted, receive_packet, max_packet}
use music_server_app.ServerRoutine.Connection as Connection
use music_server_app.ServerRoutine.Connection.{
  OnSocket, hung_up, passed_on, Agrees, handle_client-Agrees,
}
use music_server_app.ServerRoutine.Framing.{receive_packet-encode_packet}

-- The message in the memory `raw` that `malloc` gave.
abbrev pub client_message : ClntMsg → ℕ → ℕ → ClntMsg
client_message raw fd addr = record raw {
  clnt_sock_fd = fd;
  cli_addr = addr;
  clnt_data = record raw.clnt_data { payload = none };
}

-- A round of the loop.
unfoldable pub accept_client : Server → ClntMsg → Option (ℕ × ℕ) → Server
accept_client s raw none = s
accept_client s raw (some (fd, addr)) =
    add_job_to_queue s (handle_client (client_message raw fd addr))

unfoldable pub accept_clients : Server → ClntMsg → List (Option (ℕ × ℕ)) → Server
accept_clients s raw [] = s
accept_clients s raw (a ∷ more) = accept_clients (accept_client s raw a) raw more

-- Without a socket the program ends, `none`.
unfoldable pub start_server_socket :
    SystemCalls → Server → ClntMsg → List (Option (ℕ × ℕ)) → Run (Option Server)
start_server_socket c s raw accepted = do
  sock_fd ← create_server_socket c
  ok (elim sock_fd [ none ↦ none | some fd ↦ some (accept_clients s raw accepted) ])

-- The jobs of the connections that were accepted.
unfoldable pub jobs_of : ClntMsg → List (Option (ℕ × ℕ)) → List Job
jobs_of raw [] = []
jobs_of raw (none ∷ more) = jobs_of raw more
jobs_of raw (some (fd, addr) ∷ more) = handle_client (client_message raw fd addr) ∷ jobs_of raw more

-- Each connection that is accepted is one job, in the order of the connections.
pub accept_clients_lem :
    (s : Server) (raw : ClntMsg) (accepted : List (Option (ℕ × ℕ)))
    → (accept_clients s raw accepted).jobs ≡ s.jobs ++ jobs_of raw accepted
unfolding accept_clients accept_client add_job_to_queue jobs_of
accept_clients_lem s raw [] = sym (append-nil s.jobs)
accept_clients_lem s raw (none ∷ more) = accept_clients_lem s raw more
accept_clients_lem s raw (some (fd, addr) ∷ more) =
    accept_clients_lem (accept_client s raw (some (fd, addr))) raw more
    ∙ append_assoc s.jobs (handle_client (client_message raw fd addr) ∷ []) (jobs_of raw more)

-- What agrees with a posted message.
posted-Agrees :
    (r : Run OnSocket) (m : ClntMsg) (rest : List ℕ)
    → Agrees r (ok (posted m rest))
    → (es : List Event) × (r ≡ ok (passed_on m es)) × Delivers es rest
posted-Agrees (ok hung_up) m rest a = absurd a
posted-Agrees (ok (passed_on m' es)) m rest (same, d) = (es, ap (λ m. ok (passed_on m es)) same, d)
posted-Agrees (fault e) m rest a = absurd a

-- A job of `startServerSocket`, run by a worker of a server in the byte order `order`.
module _ (order : ByteOrder) (raw : ClntMsg) (fd addr : ℕ) where
  -- The message for the resource manager, and what the socket still brings.
  pub record Posts (msg : ClntData) (content rest : List ℕ) (r : Run OnSocket) : Type 0 where
    pub later : List Event
    pub posts :
        r
        ≡ ok (
            passed_on
              (record (client_message raw fd addr) {
                clnt_data = received (client_message raw fd addr).clnt_data msg content;
              })
              later)
    pub brings : Delivers later rest

  -- A client of either byte order that has connected sends a packet that encodePacket has made, of at
  -- most 4096 bytes and with the server's signature, and it arrives in pieces of any size. Then
  -- accepting the connection adds one job, and that job posts the message that was sent, with the
  -- client's address, and leaves what follows.
  pub accept_client-Posts :
      (sender : ByteOrder) (msg : ClntData) (content rest : List ℕ)
      → Carries msg content
      → header_size + msg.payload_size ≤ max_packet
      → msg.token < 2 ^ 32
      → msg.signature ≡ signature_byte
      → (sent : ClntData) (packet : List ℕ) → encode_packet sender msg ≡ ok (sent, packet)
      → {es : List Event} → Delivers es (packet ++ rest)
      → (s : Server)
      → ((accept_client s raw (some (fd, addr))).jobs
          ≡ s.jobs ++ (handle_client (client_message raw fd addr) ∷ []))
        × Posts msg content rest (Connection.handle_client order (client_message raw fd addr) es)
  unfolding accept_client add_job_to_queue
  accept_client-Posts sender msg content rest c fits tok sig sent packet e {es} d s =
      let m : ClntMsg = client_message raw fd addr in
      let arrives : receive_packet order m (packet ++ rest)
          ≡ ok (posted (record m { clnt_data = received m.clnt_data msg content }) rest) =
        rw e at (receive_packet-encode_packet order m sender msg content rest c fits tok sig) in
      let (later, posts, brings) =
        posted-Agrees (Connection.handle_client order m es)
          (record m { clnt_data = received m.clnt_data msg content }) rest
          (rw arrives at (handle_client-Agrees order m d)) in
      (refl, record { later = later; posts = posts; brings = brings })
