-- ===== src/Examples/Connections.antt =====
-- A client that connects and sends a request.
use music_server_app.Base.{ℕ, ◌≡◌, refl, none, some, List, [], ◌∷◌, arith}
use music_server_app.Packet.Bytes.{little, big}
use music_server_app.Packet.RoundTrip.{full, layout, encoded, encode_packet-layout}
use music_server_app.ClientDb.{handle_client}
use music_server_app.Socket.{Event, not_set, chunk}
use music_server_app.Socket.Receive.{closed, piece, wait}
use music_server_app.ServerRoutine.Connection as Connection
use music_server_app.Startup.{client_message, accept_client, Posts, accept_client-Posts}
use music_server_app.Examples.World.{server, add_message, song_bytes, message}

abbrev request_packet : List ℕ
request_packet = layout add_message.header 16 song_bytes

abbrev in_pieces : List Event
in_pieces =
    chunk (0x55 ∷ [])
    ∷ not_set
    ∷ chunk (0 ∷ 0 ∷ 0 ∷ 16 ∷ 3 ∷ 3 ∷ 1 ∷ 2 ∷ 3 ∷ 4 ∷ 1 ∷ song_bytes)
    ∷ chunk []
    ∷ []

accept_client-Posts_example :
    ((accept_client server (message 0 none 0) (some (9, 77))).jobs
      ≡ handle_client (client_message (message 0 none 0) 9 77) ∷ [])
    × Posts little
        (message 0 none 0)
        9
        77
        add_message
        song_bytes
        []
        (Connection.handle_client little (client_message (message 0 none 0) 9 77) in_pieces)
accept_client-Posts_example =
    accept_client-Posts little (message 0 none 0) 9 77 big add_message song_bytes []
      (full refl refl) (omega arith) (omega arith) refl (encoded big add_message) request_packet
      (encode_packet-layout big add_message song_bytes (full refl refl) (omega arith))
      (piece (wait (piece closed))) server
