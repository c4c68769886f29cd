-- ===== src/ClientDb/Slots.antt =====
-- The two positions of `schData` in MusicServer/src/clientdb.c, from a request's download to the end
-- of its song: `getClientRequestForDownloadingFunc`, `setDownloadingStatusFunc`,
-- `getClientRequestForPlayingFunc`, `setPlayingStatusFunc`, `deleteFromQueueFunc`.
use music_server_app.Base.{
  ℕ, ◌+◌, ◌%◌, Bool, not, ◌&&◌, Option, none, some, Outcome, g_ok, g_fail, if◌then◌else◌, ltb, ◌==◌,
  ge_max_client, in_array,
}
use music_server_app.Base.Run.{Run, ok, out_of_bounds, ◌>>=◌, ◌>>◌, require}
use music_server_app.Packet.{client_current_playing_m}
use music_server_app.PlayList.{
  PlState, unset, downloading, ready, playing, same_state, get_one_for_downloading,
  set_play_list_status, delete_downloading, delete_playing, delete_from_client_having_token,
}
use music_server_app.ClientDb.{
  Server, Scheduled, FileName, client_request, Mp3FileReq, Mp3FileState, mp3_downloading, is_active,
  is_unregistered, registered, add_job_to_queue, unlink, set_scheduled, set_client_state,
  find_scheduled, create_client_msg, send_one_update_to_all_client,
}
use music_server_app.ClientDb.Register.{set_client_state_active}
use music_server_app.ClientDb.Notify.{send_delete_one_to_client}

abbrev pub with_status : Scheduled → PlState → Scheduled
with_status d state = record d { status = state }

unfoldable pub set_slot_status : Server → ℕ → PlState → Server
set_slot_status s i state = set_scheduled s i (with_status (s.sch_data i) state)

-- The chosen request takes the position, and the next call looks at the other one.
unfoldable pub occupy_slot : Server → ℕ → ℕ → Mp3FileReq × Server
occupy_slot s client token =
    let i = s.schedule_index in
    let file = client_request client token in
    let d = record (s.sch_data i) {
      client_id = client;
      req_token = token;
      status = downloading;
      file_name = file;
    } in
    let s' = set_scheduled s i d in
    (
      record {
        request_id = token;
        clnt_id = client;
        ipaddress = s.client_ip client;
        file_name = file;
        file_state = mp3_downloading;
      },
      record s' { cdb = record s'.cdb { schedule_index = (i + 1) % 2 } },
    )

-- The request that a worker is to download, or `none` for any answer but `G_OK`.
unfoldable pub get_client_request_for_downloading : Server → Run (Option Mp3FileReq × Server)
get_client_request_for_downloading s =
    if not (same_state (s.sch_data s.schedule_index).status unset) then ok (none, s) else do
      (chosen, pl') ← get_one_for_downloading s.pl
      let s' = record s { pl = pl' }
      elim chosen [
        | none ↦ ok (none, s')
        | some (client, token) ↦ do
          require (in_array client) out_of_bounds
          let (req, s'') = occupy_slot s' client token
          ok (some req, s'')
      ]

abbrev pub is_downloading_slot : Server → Mp3FileReq → ℕ → Bool
is_downloading_slot s resp i =
    (s.sch_data i).client_id == resp.clnt_id
    && (s.sch_data i).req_token == resp.request_id
    && same_state (s.sch_data i).status downloading

-- The file is there.
unfoldable pub download_ready : Server → ℕ → Mp3FileReq → Run Server
download_ready s i resp = do
  let s' = set_slot_status s i ready
  (_, pl') ← set_play_list_status s'.pl resp.clnt_id ready
  ok (record s' { pl = pl' })

-- The request is dropped, and its client is told.
unfoldable pub download_error : Server → ℕ → Mp3FileReq → Run Server
download_error s i resp = do
  let s' = set_slot_status s i unset
  (_, pl') ← delete_downloading s'.pl
  let s'' = unlink (record s' { pl = pl' }) resp.file_name
  send_delete_one_to_client s'' (s''.sch_data i).client_id (s''.sch_data i).req_token

unfoldable pub finish_download : Mp3FileState → Server → ℕ → Mp3FileReq → Run Server
finish_download Mp3FileState.mp3_file_ready s i resp = download_ready s i resp
finish_download Mp3FileState.mp3_file_error s i resp = download_error s i resp
finish_download _ s i resp = ok s

unfoldable pub set_downloading_status : Server → Mp3FileReq → Run (Outcome × Server)
unfolding finish_download
set_downloading_status s resp =
    let i = find_scheduled (is_downloading_slot s resp) in
    if not (ltb i 2)
    then ok (g_fail, s)
    else (do s' ← finish_download resp.file_state s i resp; ok (g_ok, s'))

-- A file that is ready goes to the player, and all clients are told.
unfoldable pub start_playing : Server → ℕ → Run (FileName × Server)
start_playing s i = do
  let d = s.sch_data i
  let s₁ = set_slot_status s i playing
  (_, pl') ← set_play_list_status s₁.pl d.client_id playing
  (_, s₂) ← set_client_state_active (record s₁ { pl = pl' }) d.client_id
  let msg = create_client_msg d.client_id d.req_token client_current_playing_m
  ok (d.file_name, add_job_to_queue s₂ (send_one_update_to_all_client msg))

-- The file to play, or `none` for `G_FAIL`.
unfoldable pub get_client_request_for_playing : Server → Run (Option FileName × Server)
get_client_request_for_playing s =
    let i = find_scheduled (λ i. same_state (s.sch_data i).status ready) in
    if not (ltb i 2) then ok (none, s) else (do (file, s') ← start_playing s i; ok (some file, s'))

-- The song's position is free again, its request and its file are dropped.
unfoldable pub end_playing : Server → ℕ → Run Server
end_playing s i = do
  let s₁ = set_slot_status s i unset
  (_, pl') ← delete_playing s₁.pl
  let d = s₁.sch_data i
  let s₂ = unlink (record s₁ { pl = pl' }) d.file_name
  require (in_array d.client_id) out_of_bounds
  if is_active (s₂.client_state d.client_id)
      then send_delete_one_to_client (set_client_state s₂ d.client_id registered) d.client_id
          d.req_token
      else ok s₂

unfoldable pub set_playing_status : Server → Run (Outcome × Server)
set_playing_status s =
    let i = find_scheduled (λ i. same_state (s.sch_data i).status playing) in
    if not (ltb i 2) then ok (g_fail, s) else (do s' ← end_playing s i; ok (g_ok, s'))

-- `deleteFromClientHavingToken` of the play list
unfoldable pub delete_request : Server → ℕ → ℕ → Run (Outcome × Server)
delete_request s id token = do
  (res, pl') ← delete_from_client_having_token s.pl id token
  ok (res, record s { pl = pl' })

-- A position of `schData` that holds the request: a song that plays is stopped, a file that is ready
-- is dropped with the request, and a download goes on.
unfoldable pub delete_scheduled : PlState → Server → ℕ → ℕ → ℕ → Run (Outcome × Server)
delete_scheduled PlState.playing s i id token = ok (g_ok, record s { stop = 1 })
delete_scheduled PlState.ready s i id token =
    delete_request (unlink (set_slot_status s i unset) (s.sch_data i).file_name) id token
delete_scheduled _ s i id token = ok (g_fail, s)

abbrev pub holds_request : Server → ℕ → ℕ → ℕ → Bool
holds_request s i id token = (s.sch_data i).client_id == id && (s.sch_data i).req_token == token

unfoldable pub delete_from_queue : Server → ℕ → ℕ → Run (Outcome × Server)
unfolding delete_scheduled
delete_from_queue s id token = if ge_max_client id then ok (g_fail, s) else do
  require (in_array id) out_of_bounds
  if is_unregistered (s.client_state id)
      then ok (g_fail, s)
      else if holds_request s 0 id token
      then delete_scheduled (s.sch_data 0).status s 0 id token
      else if holds_request s 1 id token
      then delete_scheduled (s.sch_data 1).status s 1 id token
      else delete_request s id token
