-- ===== src/Examples/Sockets.antt =====
-- Sockets whose streams come in pieces, and a download.
use music_server_app.Base.{ℕ, ◌≡◌, refl, none, some, List, [], ◌∷◌, arith}
use music_server_app.Base.Run.{Returns}
use music_server_app.Packet.{encode_packet, encode_header, copy_payload, signature_byte}
use music_server_app.Packet.Bytes.{little, ntohl, from_memory, swap_bytes, memory, htonl}
use music_server_app.ClientDb.{Mp3FileReq, client_request, mp3_init}
use music_server_app.Socket.{
  Event, not_set, timed_out, chunk, room, receive_data, send_data, send_loop, receive_loop,
}
use music_server_app.Socket.Receive.{
  Delivers, closed, piece, wait, Within, receive_data-Takes, receive_data_ends,
}
use music_server_app.Socket.Send.{Sent, send_data-Sent}
use music_server_app.ServerRoutine.{receive_packet}
use music_server_app.ServerRoutine.Connection.{handle_client, Agrees, handle_client-Agrees}
use music_server_app.ResourceManager.Machine.{post_msg_to_rm}
use music_server_app.ResourceManager.Download.{
  ask_client, read_size, download_file, download_loop, is_complete, current_read,
  get_mp3_file_from_client,
}
use music_server_app.ResourceManager.Fetched.{Fetched, get_mp3_file_from_client-Fetched}
use music_server_app.ResourceManager.{RManager}
use music_server_app.Examples.World.{manager, message}
use music_server_app.Examples.Registration.{quiet_server, quiet_server-IsRegistry}

-- Four bytes in two pieces.
abbrev pieces : List Event
pieces = chunk (1 ∷ 2 ∷ 3 ∷ []) ∷ not_set ∷ chunk (4 ∷ []) ∷ chunk [] ∷ []

pieces-Delivers : Delivers pieces (1 ∷ 2 ∷ 3 ∷ 4 ∷ [])
pieces-Delivers = piece (wait (piece closed))

receive_data-Takes_example :
    Returns
      (λ m. (m.answer ≡ 2) × (m.bytes ≡ 1 ∷ 2 ∷ []) × Delivers m.rest (3 ∷ 4 ∷ []))
      (receive_data pieces 2)
receive_data-Takes_example = receive_data-Takes pieces-Delivers 2

receive_data_ends_example : Returns (Within 2) (receive_data pieces 2)
receive_data_ends_example = receive_data_ends pieces 2 (omega arith)

send_data-Sent_example :
    Returns
      (Sent (7 ∷ 8 ∷ 9 ∷ []))
      (send_data (room 2 ∷ not_set ∷ timed_out ∷ room 1 ∷ []) (7 ∷ 8 ∷ 9 ∷ []))
send_data-Sent_example =
    send_data-Sent (room 2 ∷ not_set ∷ timed_out ∷ room 1 ∷ []) (7 ∷ 8 ∷ 9 ∷ []) (omega arith)

abbrev packet : List ℕ
packet = signature_byte ∷ 0 ∷ 0 ∷ 0 ∷ 13 ∷ 3 ∷ 3 ∷ 0 ∷ 0 ∷ 0 ∷ 1 ∷ 1 ∷ 115 ∷ []

abbrev packet_pieces : List Event
packet_pieces =
    chunk (signature_byte ∷ [])
    ∷ chunk (0 ∷ 0 ∷ 0 ∷ 13 ∷ 3 ∷ 3 ∷ [])
    ∷ chunk (0 ∷ 0 ∷ 0 ∷ 1 ∷ 1 ∷ 115 ∷ [])
    ∷ chunk []
    ∷ []

handle_client-Agrees_example :
    Agrees
      (handle_client little (message 0 none 0) packet_pieces)
      (receive_packet little (message 0 none 0) packet)
handle_client-Agrees_example =
    handle_client-Agrees little (message 0 none 0) (piece (piece (piece closed)))

abbrev quiet : RManager
quiet = record manager { server = quiet_server }

abbrev file_request_of : Mp3FileReq
file_request_of = record {
  request_id = 5;
  clnt_id = 3;
  ipaddress = 77;
  file_name = client_request 3 5;
  file_state = mp3_init;
}

-- A file of three bytes, in two pieces.
abbrev file_pieces : List Event
file_pieces = chunk (0 ∷ 0 ∷ 0 ∷ 3 ∷ 7 ∷ []) ∷ chunk (8 ∷ 9 ∷ []) ∷ chunk [] ∷ []

abbrev writable : List Event
writable =
    room 1
    ∷ room 1
    ∷ room 1
    ∷ room 1
    ∷ room 1
    ∷ room 1
    ∷ room 1
    ∷ room 1
    ∷ room 1
    ∷ room 1
    ∷ room 1
    ∷ room 1
    ∷ []

get_mp3_file_from_client-Fetched_example :
    Returns
      (Fetched quiet file_request_of (some []) (0 ∷ 0 ∷ 0 ∷ 3 ∷ 7 ∷ 8 ∷ 9 ∷ []))
      (get_mp3_file_from_client quiet file_request_of (some []) writable file_pieces)
get_mp3_file_from_client-Fetched_example =
    get_mp3_file_from_client-Fetched quiet file_request_of quiet_server-IsRegistry (omega arith)
      (some []) writable (omega arith) (piece (piece closed))

-- The file is there.
downloaded :
    Returns
      (λ f. f.file ≡ some (7 ∷ 8 ∷ 9 ∷ []))
      (get_mp3_file_from_client quiet file_request_of (some []) writable file_pieces)
unfolding get_mp3_file_from_client ask_client encode_packet encode_header copy_payload send_data
    send_loop receive_data receive_loop read_size download_file download_loop is_complete
    current_read ntohl from_memory swap_bytes memory htonl post_msg_to_rm
downloaded = refl
