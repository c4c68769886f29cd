-- ===== src/Examples/World.antt =====
-- A server with two registered clients, 3 at address 77 and 5 at address 78, that have a request
-- each.
use music_server_app.Base.{
  ℕ, ◌||◌, true, false, Option, none, some, [], ◌∷◌, ◌==◌, if◌then◌else◌, List,
}
use music_server_app.Packet.{Header, ClntData}
use music_server_app.Packet.Bytes.{little}
use music_server_app.PlayList.{PlState, PlayList, Request, waiting}
use music_server_app.ClientDb.{
  Server, ClientDb, Environment, Scheduled, ClntMsg, blank, registered, unregistered,
}
use music_server_app.ResourceManager.{RManager, idle}

abbrev pub header_of : ℕ → ℕ → ℕ → Header
header_of id client last = record {
  total_size = 0;
  token = 0x01020304;
  msg_id = id;
  clnt_id = client;
  signature = 0x55;
  is_last = last;
}

abbrev pub song_bytes : List ℕ
song_bytes = b's' ∷ b'o' ∷ b'n' ∷ b'g' ∷ []

abbrev pub add_message : ClntData
add_message = record { header = header_of 3 3 1; payload = some song_bytes; payload_size = 4 }

abbrev pub blank_message : ClntData
blank_message = record { header = header_of 0 0 0; payload = none; payload_size = 0 }

abbrev pub one_request : Request
one_request = record { token = 5; id = 3; pl_status = waiting; payload = song_bytes; size = 4 }

abbrev pub other_request : Request
other_request = record { token = 8; id = 5; pl_status = waiting; payload = song_bytes; size = 4 }

abbrev pub play_list_of : List Request → PlayList
play_list_of rs = record {
  p_list = λ i.
      if i == 3
      then record { nodes = rs; total_node = 1 }
      else if i == 5
      then record { nodes = other_request ∷ []; total_node = 1 }
      else record { nodes = []; total_node = 0 };
  play_list_size = 2;
  current_playing = 255;
  current_downloading = 255;
  locked = false;
}

abbrev pub free_slot : Scheduled
free_slot = record {
  client_id = 0;
  client_ip = 0;
  req_token = 0;
  status = PlState.unset;
  file_name = blank;
}

abbrev pub clients : ClientDb
clients = record {
  client_id = λ i. i;
  client_name = λ a. 0;
  client_ip = λ i. if i == 3 then 77 else if i == 5 then 78 else 0;
  client_state = λ i. if i == 3 || i == 5 then registered else unregistered;
  sch_data = λ i. free_slot;
  schedule_index = 0;
}

abbrev pub reachable : Environment
reachable = record {
  connects = λ n ip. true;
  sends = λ n. true;
  order = little;
  garbage = 0;
  stores = λ bytes. bytes;
}

abbrev pub server : Server
server = record {
  cdb = clients;
  pl = play_list_of (one_request ∷ []);
  stop = 0;
  player_file = blank;
  jobs = [];
  unlinked = [];
  outbox = [];
  network_calls = 0;
  token = 0;
  env = reachable;
}

abbrev pub manager : RManager
manager = record { rm_state = idle; is_active = 0; rm_queue = []; server = server; picks = λ n. n }

abbrev pub message : ℕ → Option (List ℕ) → ℕ → ClntMsg
message id payload size = record {
  clnt_sock_fd = 4;
  cli_addr = 77;
  clnt_data = record { header = header_of id 3 1; payload = payload; payload_size = size };
}
