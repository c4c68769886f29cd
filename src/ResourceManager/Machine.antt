-- ===== src/ResourceManager/Machine.antt =====
-- `servRequest` of MusicServer/src/resourceManager.c and the functions of its state machine, with
-- what they use of MusicServer/src/jukebox.c.
use music_server_app.Base.{
  suc, not, ◌&&◌, Option, none, some, List, [], ◌∷◌, if◌then◌else◌, ◌==◌, ◌++◌,
}
use music_server_app.Base.Run.{Run, ok, ◌>>=◌}
use music_server_app.Packet.{register_m}
use music_server_app.ClientDb.{
  Server, ClntMsg, Mp3FileReq, Mp3FileState, mp3_file_ready, mp3_file_error, FileName, song,
  get_mp3_file_from_client, play_song, add_job_to_queue,
}
use music_server_app.ClientDb.Slots.{
  get_client_request_for_downloading, get_client_request_for_playing, set_downloading_status,
  set_playing_status,
}
use music_server_app.ResourceManager.{
  RManager, RmState, idle, downloading, playing, playing_downloading, playing_downloaded, RmMsg,
  clnt_msg, mplayer_done, mplayer_stop, mplayer_err, dw_complete, dw_err, StateFunc, rm_run_state,
}
use music_server_app.ResourceManager.Requests.{serv_client_request}

abbrev pub with_server : RManager → Server → RManager
with_server rm s = record rm { server = s }

abbrev pub with_state : RManager → RmState → RManager
with_state rm state = record rm { rm_state = state }

-- The state once a download has been started.
unfoldable pub scheduled_state : RmState → RmState
scheduled_state RmState.idle = downloading
scheduled_state RmState.playing = playing_downloading
scheduled_state state = state

unfoldable pub start_download : RManager → Option Mp3FileReq → RManager
unfolding scheduled_state
start_download rm none = rm
start_download rm (some req) =
    with_server (with_state rm (scheduled_state rm.rm_state))
      (add_job_to_queue rm.server (get_mp3_file_from_client req))

unfoldable pub run_call_schedular : RManager → Run RManager
run_call_schedular rm = do
  (req, s') ← get_client_request_for_downloading rm.server
  ok (start_download (with_server rm s') req)

-- A file for the player, or back to `rm_Idle`; the scheduler runs in either case.
unfoldable pub play_file : RManager → Option FileName → RManager
play_file rm none = with_state rm idle
play_file rm (some file) =
    with_state
      (with_server rm (add_job_to_queue (record rm.server { player_file = file }) play_song))
      playing

unfoldable pub play_next : RManager → Run RManager
play_next rm = do
  (file, s') ← get_client_request_for_playing rm.server
  run_call_schedular (play_file (with_server rm s') file)

-- The `switch` of `moveToPlaying`.
unfoldable pub play_from : RmState → RManager → Run RManager
play_from RmState.downloading rm = play_next rm
play_from RmState.playing_downloaded rm = play_next rm
play_from RmState.playing_downloading rm = ok (with_state rm downloading)
play_from RmState.idle rm = ok rm
play_from RmState.playing rm = ok rm

unfoldable pub run_state_func : StateFunc → RManager → Run RManager
unfolding play_from
run_state_func StateFunc.print_rm_state_error rm = ok rm
run_state_func StateFunc.move_to_idle rm = run_call_schedular (with_state rm idle)
run_state_func StateFunc.move_to_downloading rm = ok (with_state rm downloading)
run_state_func StateFunc.move_to_playing rm = play_from rm.rm_state rm
run_state_func StateFunc.move_to_playing_schedule_next rm =
    run_call_schedular (with_state rm playing)
run_state_func StateFunc.move_to_playing_downloaded rm = ok (with_state rm playing_downloaded)
run_state_func StateFunc.call_schedular rm = run_call_schedular rm

unfoldable pub run_entry : Option StateFunc → RManager → Run RManager
run_entry none rm = ok rm
run_entry (some f) rm = run_state_func f rm

unfoldable pub run_machine : RmMsg → RManager → Run RManager
run_machine msg rm = run_entry (rm_run_state rm.rm_state msg) rm

-- `scheduleNextRandomSongFunc`, once it has found an MP3 file.
unfoldable pub schedule_next_random_song : RManager → RManager
schedule_next_random_song rm = record rm {
  is_active = 1;
  server = add_job_to_queue (record rm.server { player_file = song (rm.picks 0) }) play_song;
  picks = λ n. rm.picks (suc n);
}

-- A message that is not a registration stops the jukebox's song.
unfoldable pub stop_juke_box : RManager → ClntMsg → Server
stop_juke_box rm m =
    if not (m.clnt_data.msg_id == register_m) && rm.is_active == 1
    then record rm.server { stop = 1 }
    else rm.server

-- `servMplayerResponse`
unfoldable pub serv_mplayer_response : Server → Run Server
serv_mplayer_response s = do (_, s') ← set_playing_status s; ok s'

unfoldable pub handle_download : Mp3FileState → Server → Mp3FileReq → Run Server
handle_download state s req = do
  (_, s') ← set_downloading_status s (record req { file_state = state })
  ok s'

-- The machine runs after the message's own work.
abbrev pub and_run : RManager → RmMsg → Run Server → Run RManager
and_run rm msg work = work >>= λ s. run_machine msg (with_server rm s)

-- The end of a song while the jukebox is active ends the call without a run of the machine. For
-- `rm_mplayerStop_m` the source compares `isActive` with 0 and assigns nothing.
unfoldable pub serv_request : RManager → RmMsg → Run RManager
serv_request rm (clnt_msg m) = and_run rm (clnt_msg m) (serv_client_request (stop_juke_box rm m) m)
serv_request rm RmMsg.mplayer_done =
    if rm.is_active == 1
    then ok (schedule_next_random_song rm)
    else and_run rm mplayer_done (serv_mplayer_response rm.server)
serv_request rm RmMsg.mplayer_err =
    if rm.is_active == 1
    then ok (schedule_next_random_song rm)
    else and_run rm mplayer_err (serv_mplayer_response rm.server)
serv_request rm RmMsg.mplayer_stop =
    if rm.is_active == 1 then ok rm else and_run rm mplayer_stop (serv_mplayer_response rm.server)
serv_request rm (dw_complete req) =
    and_run rm (dw_complete req) (handle_download mp3_file_ready rm.server req)
serv_request rm (dw_err req) =
    and_run rm (dw_err req) (handle_download mp3_file_error rm.server req)

-- `postMsgToRmQueue`
unfoldable pub post_msg_to_rm : RManager → RmMsg → RManager
post_msg_to_rm rm msg = record rm { rm_queue = rm.rm_queue ++ (msg ∷ []) }

-- The inner loop of `runResourceManager` over the messages that wait.
unfoldable pub serve_queue : List RmMsg → RManager → Run RManager
serve_queue [] rm = ok rm
serve_queue (msg ∷ msgs) rm = serv_request rm msg >>= serve_queue msgs

-- `runResourceManager` starts the jukebox first.
unfoldable pub start_resource_manager : RManager → RManager
start_resource_manager rm = schedule_next_random_song rm
