-- ===== src/ClientDb.antt =====
-- MusicServer/inc/clientdb.h, with the state of the process that its operations reach: the play
-- list, the fields of the music player, the job queue of Common/src/gthreads.c and what goes out
-- over the network. The singletons of the source are the fields of `Server`.
pub mod Register
pub mod Search
pub mod Registry
pub mod Admission
pub mod Broadcast
pub mod Syncing
pub mod Synced
pub mod Deadlock
pub mod Quiet
pub mod Queueing
pub mod Unqueueing
pub mod Positions
pub mod Notify
pub mod Slots
use music_server_app.Base.{
  ℕ, zero, suc, ◌+◌, ◌*◌, ◌-◌, Bool, true, false, not, ◌&&◌, Option, none, some, List, [], ◌∷◌,
  ◌++◌, if◌then◌else◌, ltb, ◌==◌, max_client, max_client_name, update, Outcome, g_ok,
}
use music_server_app.Base.Run.{Run, ok, out_of_bounds, ◌>>=◌, ◌>>◌, require}
use music_server_app.Packet.{Header, ClntData, signature_byte}
use music_server_app.Packet.Bytes.{ByteOrder}
use music_server_app.PlayList.{PlState, PlayList, init_play_list}

-- `CLIENT_STATE`
pub data ClientState : Type 0 where
  unregistered registered active : ClientState

abbrev pub is_unregistered : ClientState → Bool
is_unregistered ClientState.unregistered = true
is_unregistered ClientState.registered = false
is_unregistered ClientState.active = false

abbrev pub is_active : ClientState → Bool
is_active ClientState.unregistered = false
is_active ClientState.registered = false
is_active ClientState.active = true

-- The path of a file: one that `sprintf` makes of client and token, or one of the jukebox's.
pub data FileName : Type 0 where
  blank : FileName
  client_request : (client token : ℕ) → FileName
  song : ℕ → FileName

-- `scheduledData`
pub record Scheduled : Type 0 where
  pub client_id : ℕ
  pub client_ip : ℕ
  pub req_token : ℕ
  pub status : PlState
  pub file_name : FileName

-- `clientName` is the array's memory, row behind row.
pub record ClientDb : Type 0 where
  pub client_id : ℕ → ℕ
  pub client_name : ℕ → ℕ
  pub client_ip : ℕ → ℕ
  pub client_state : ℕ → ClientState
  pub sch_data : ℕ → Scheduled
  pub schedule_index : ℕ

-- `MP3_FILE_STATE`
pub data Mp3FileState : Type 0 where
  mp3_init mp3_downloading mp3_file_error mp3_file_ready mp3_file_playing : Mp3FileState

-- `MP3_FILE_REQ`
pub record Mp3FileReq : Type 0 where
  pub request_id : ℕ
  pub clnt_id : ℕ
  pub ipaddress : ℕ
  pub file_name : FileName
  pub file_state : Mp3FileState

-- `clntMsg_t`
pub record ClntMsg : Type 0 where
  pub clnt_sock_fd : ℕ
  pub cli_addr : ℕ
  pub clnt_data : ClntData

-- The routines that go to the worker threads, with their arguments.
pub data Job : Type 0 where
  send_one_update_to_all_client : ClntData → Job
  send_all_update_to_client : ℕ → Job
  get_mp3_file_from_client : Mp3FileReq → Job
  play_song : Job
  handle_client : ClntMsg → Job

-- What the program meets: whether the n-th connection or transmission succeeds, the byte order, the
-- byte in a signature that was never set, and what `write` stores of the bytes that it is given for a
-- file.
pub record Environment : Type 0 where
  pub connects : (n ip : ℕ) → Bool
  pub sends : ℕ → Bool
  pub order : ByteOrder
  pub garbage : ℕ
  pub stores : List ℕ → List ℕ

pub record Server : Type 0 where
  pub cdb : ClientDb
  pub open cdb use *
  pub pl : PlayList
  pub stop : ℕ
  pub player_file : FileName
  pub jobs : List Job
  pub unlinked : List FileName
  pub outbox : List (ℕ × List ℕ)
  pub network_calls : ℕ
  pub token : ℕ
  pub env : Environment

-- `addJobToQueue`: the workers take from the front.
unfoldable pub add_job_to_queue : Server → Job → Server
add_job_to_queue s job = record s { jobs = s.jobs ++ (job ∷ []) }

unfoldable pub unlink : Server → FileName → Server
unlink s file = record s { unlinked = file ∷ s.unlinked }

unfoldable pub set_scheduled : Server → ℕ → Scheduled → Server
set_scheduled s i d = record s { cdb = record s.cdb { sch_data = update s.sch_data i d } }

unfoldable pub set_client_state : Server → ℕ → ClientState → Server
set_client_state s i state = record s {
  cdb = record s.cdb { client_state = update s.client_state i state };
}

-- The address of the first byte of a name.
abbrev pub name_start : ℕ → ℕ
name_start i = max_client_name * i

-- `memset(cdb->clientName[i], 0, MAX_CLIENT_NAME + 1)`: a byte more than the row has. Behind the
-- last row that byte is padding.
unfoldable pub clear_name : (ℕ → ℕ) → ℕ → ℕ → ℕ
clear_name names i a =
    if not (ltb a (name_start i)) && ltb a (name_start i + max_client_name + 1) then 0 else names a

-- `initClientDb` on the memory `raw` that `malloc` gave: the second position of `schData`, and all
-- but state and file name of the first, stay as they were.
unfoldable pub init_client_db : ClientDb → ClientDb
init_client_db raw = record {
  client_id = λ i. i;
  client_name = λ a. 0;
  client_ip = λ i. 0;
  client_state = λ i. unregistered;
  sch_data =
      update raw.sch_data 0 (record (raw.sch_data 0) { status = PlState.unset; file_name = blank });
  schedule_index = 0;
}

-- The first of the indices `i`, `i + 1`, … that passes the test, or the end.
unfoldable pub find_from : ℕ → ℕ → (ℕ → Bool) → ℕ
find_from zero i test = i
find_from (suc rounds) i test =
    let rest = find_from rounds (i + 1) test in if test i then i else rest

unfoldable pub find_client : (ℕ → Bool) → ℕ
unfolding find_from
find_client test = find_from max_client 0 test

-- The two positions of `schData`.
unfoldable pub find_scheduled : (ℕ → Bool) → ℕ
unfolding find_from
find_scheduled test = find_from 2 0 test

-- `createClientMsg`
unfoldable pub create_client_msg : ℕ → ℕ → ℕ → ClntData
create_client_msg clnt_id m_token id = record {
  header = record {
    total_size = 0;
    token = m_token;
    msg_id = id;
    clnt_id = clnt_id;
    signature = signature_byte;
    is_last = 1;
  };
  payload = none;
  payload_size = 0;
}
