-- ===== src/ResourceManager.antt =====
-- MusicServer/inc/resourceManager.h and the state machine of MusicServer/src/resourceManager.c. The
-- manager takes one message at a time from its queue.
pub mod Requests
pub mod Answers
pub mod Effects
pub mod Registered
pub mod Served
pub mod Freed
pub mod Machine
pub mod Edges
pub mod Diagram
pub mod Ends
pub mod Completed
pub mod Finished
pub mod Stall
pub mod Download
pub mod Loaded
pub mod Fetched
use music_server_app.Base.{ℕ, List, Option, none, some}
use music_server_app.ClientDb.{Server, ClntMsg, Mp3FileReq, FileName}

-- `rmMsg_t`, with the data that each message carries.
pub data RmMsg : Type 0 where
  clnt_msg : ClntMsg → RmMsg
  mplayer_done mplayer_stop mplayer_err : RmMsg
  dw_complete dw_err : Mp3FileReq → RmMsg

-- `rmState_e`
pub data RmState : Type 0 where
  idle downloading playing playing_downloading playing_downloaded : RmState

-- `RManager`, with what it shares with the worker threads. `is_active` is the jukebox's field, and
-- `picks` numbers the songs that the jukebox still finds.
pub record RManager : Type 0 where
  pub rm_state : RmState
  pub is_active : ℕ
  pub rm_queue : List RmMsg
  pub server : Server
  pub open server use *
  pub picks : ℕ → ℕ

-- The functions that `rmRunState` points to.
pub data StateFunc : Type 0 where
  print_rm_state_error move_to_idle move_to_downloading move_to_playing : StateFunc
  move_to_playing_schedule_next move_to_playing_downloaded call_schedular : StateFunc

-- The table that `initRmManager` fills; `none` is a `NULL` entry.
unfoldable pub rm_run_state : RmState → RmMsg → Option StateFunc
rm_run_state RmState.idle (clnt_msg m) = some call_schedular
rm_run_state RmState.idle _ = some print_rm_state_error
rm_run_state RmState.downloading (clnt_msg m) = none
rm_run_state RmState.downloading (dw_complete r) = some move_to_playing
rm_run_state RmState.downloading (dw_err r) = some move_to_idle
rm_run_state RmState.downloading _ = some print_rm_state_error
rm_run_state RmState.playing (clnt_msg m) = some call_schedular
rm_run_state RmState.playing (dw_complete r) = some print_rm_state_error
rm_run_state RmState.playing (dw_err r) = some print_rm_state_error
rm_run_state RmState.playing _ = some move_to_idle
rm_run_state RmState.playing_downloading (clnt_msg m) = none
rm_run_state RmState.playing_downloading (dw_complete r) = some move_to_playing_downloaded
rm_run_state RmState.playing_downloading (dw_err r) = some move_to_playing_schedule_next
rm_run_state RmState.playing_downloading _ = some move_to_downloading
rm_run_state RmState.playing_downloaded (clnt_msg m) = none
rm_run_state RmState.playing_downloaded (dw_complete r) = some print_rm_state_error
rm_run_state RmState.playing_downloaded (dw_err r) = some print_rm_state_error
rm_run_state RmState.playing_downloaded _ = some move_to_playing
