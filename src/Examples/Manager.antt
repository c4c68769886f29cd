-- ===== src/Examples/Manager.antt =====
-- Messages to the resource manager of MusicServer/src/resourceManager.c.
use music_server_app.Base.{ℕ, ◌≡◌, refl, none}
use music_server_app.Base.Run.{Run, ok, fault, Returns, Ensures}
use music_server_app.Packet.{encode_packet, copy_payload, encode_header}
use music_server_app.Packet.Bytes.{memory, htonl}
use music_server_app.PlayList.{
  lock, get_one_for_downloading, mark_downloading, play_list_scheduler, first_client, search_from,
  scan_clients, request_at, set_status, put_list, set_play_list_status, promote_in, promote,
  fall_back,
}
use music_server_app.ClientDb.{
  Mp3FileReq, Mp3FileState, client_request, add_job_to_queue, set_scheduled, find_scheduled,
  create_client_msg, set_client_state,
}
use music_server_app.ClientDb.Register.{set_client_state_active}
use music_server_app.ClientDb.Notify.{transmit}
use music_server_app.ClientDb.Slots.{
  get_client_request_for_downloading, occupy_slot, set_downloading_status, download_ready,
  set_slot_status, get_client_request_for_playing, start_playing,
}
use music_server_app.ServerRoutine.{answer, send_nack_and_close}
use music_server_app.ResourceManager.{
  RManager, playing_downloading, downloading, playing_downloaded, RmMsg, clnt_msg, dw_complete,
  mplayer_stop, rm_run_state,
}
use music_server_app.ResourceManager.Requests.{serv_client_request}
use music_server_app.ResourceManager.Machine.{
  serv_request, stop_juke_box, run_machine, run_entry, run_state_func, run_call_schedular,
  start_download, handle_download, play_next, play_file, schedule_next_random_song,
  start_resource_manager, scheduled_state,
}
use music_server_app.ResourceManager.Diagram.{Follows, Undisturbed, serv_request-Follows}
use music_server_app.ResourceManager.Stall.{
  Reach, here, next, serve, IsBusy, plays_downloading, song_end_is_lost, IsBusy-for_good,
  playing_downloaded_is_final,
}
use music_server_app.Examples.World.{manager, message}

started : RManager
unfolding start_resource_manager
started = start_resource_manager manager

-- A message of no known kind is refused, and lets the scheduler start the waiting request's download.
abbrev unknown_message : RmMsg
unknown_message = clnt_msg (message 99 none 0)

-- The code that a message to the manager runs through.
code : ℕ
unfolding serv_request stop_juke_box run_machine run_entry run_state_func run_call_schedular
    start_download handle_download play_next play_file schedule_next_random_song scheduled_state
    rm_run_state serv_client_request send_nack_and_close answer transmit encode_packet copy_payload
    encode_header memory htonl get_client_request_for_downloading occupy_slot set_downloading_status
    download_ready set_slot_status get_client_request_for_playing start_playing
    set_client_state_active add_job_to_queue set_scheduled find_scheduled create_client_msg
    set_client_state lock get_one_for_downloading mark_downloading play_list_scheduler first_client
    search_from scan_clients request_at set_status put_list set_play_list_status promote_in promote
    fall_back
code = 0

abbrev reply : Mp3FileReq
reply = record {
  request_id = 8;
  clnt_id = 5;
  ipaddress = 78;
  file_name = client_request 5 8;
  file_state = Mp3FileState.mp3_downloading;
}

-- The manager that a call returns, or the one before it.
abbrev returned : RManager → Run RManager → RManager
returned rm (ok rm') = rm'
returned rm (fault e) = rm

abbrev requested : RManager
requested = returned started (serv_request started unknown_message)

downloads : Returns (λ rm. rm.rm_state ≡ downloading) (serv_request started unknown_message)
unfolding started code
downloads = refl

-- Client 5's request is downloaded and started, and client 3's download begins.
abbrev first_song : RManager
first_song = returned requested (serv_request requested (dw_complete reply))

first_song_plays :
    Returns
      (λ rm. (rm.rm_state ≡ playing_downloading) × (rm.player_file ≡ client_request 5 8))
      (serv_request requested (dw_complete reply))
unfolding started code
first_song_plays = (refl, refl)

first_song-Reach : Reach started first_song
unfolding started code
first_song-Reach = next (next here (serve unknown_message refl)) (serve (dw_complete reply) refl)

abbrev other_reply : Mp3FileReq
other_reply = record {
  request_id = 5;
  clnt_id = 3;
  ipaddress = 77;
  file_name = client_request 3 5;
  file_state = Mp3FileState.mp3_downloading;
}

abbrev both_songs : RManager
both_songs = returned first_song (serv_request first_song (dw_complete other_reply))

both_songs-Reach : Reach started both_songs
unfolding started code
both_songs-Reach = next first_song-Reach (serve (dw_complete other_reply) refl)

song_end_is_lost_example : Returns (Undisturbed both_songs) (serv_request both_songs mplayer_stop)
unfolding started
song_end_is_lost_example = song_end_is_lost manager mplayer_stop both_songs-Reach refl

IsBusy-for_good_example : IsBusy both_songs.rm_state
unfolding started code
IsBusy-for_good_example =
    IsBusy-for_good manager first_song-Reach plays_downloading
      (next here (serve (dw_complete other_reply) refl))

playing_downloaded_is_final_example : both_songs.rm_state ≡ playing_downloaded
unfolding started code
playing_downloaded_is_final_example = playing_downloaded_is_final manager both_songs-Reach refl here

serv_request-Follows_example :
    Ensures (Follows started unknown_message) (serv_request started unknown_message)
serv_request-Follows_example = serv_request-Follows started unknown_message
