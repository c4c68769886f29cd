-- ===== src/ResourceManager/Edges.antt =====
-- The transition diagram that the table in `initRmManager` of MusicServer/src/resourceManager.c
-- stands for, with what the scheduler adds to it.
use music_server_app.Base.{ℕ, ◌≡◌, refl, Bool, true, false, Option, none, some, ap}
use music_server_app.Base.Run.{ok, Ensures, Ensures-any}
use music_server_app.ClientDb.{Mp3FileReq, FileName}
use music_server_app.ClientDb.Slots.{
  get_client_request_for_downloading, get_client_request_for_playing,
}
use music_server_app.ResourceManager.{
  RManager, RmState, idle, downloading, playing, playing_downloading, playing_downloaded, RmMsg,
  clnt_msg, dw_complete, dw_err, rm_run_state,
}
use music_server_app.ResourceManager.Machine.{
  with_server, with_state, scheduled_state, start_download, run_call_schedular, play_file,
  play_next, play_from, run_state_func, run_entry, run_machine,
}

-- What a message tells the machine.
pub data Event : Type 0 where
  request song_end complete error : Event

abbrev pub event : RmMsg → Event
event (clnt_msg m) = request
event RmMsg.mplayer_done = song_end
event RmMsg.mplayer_stop = song_end
event RmMsg.mplayer_err = song_end
event (dw_complete r) = complete
event (dw_err r) = error

-- A state, or the one that the scheduler moves it to when it starts a download.
pub data Then : RmState → RmState → Type 0 where
  stay : {s : RmState} → Then s s
  first_download : Then idle downloading
  next_download : Then playing playing_downloading

-- The events that change nothing in a state: those that cannot come there, and requests while the
-- scheduler has no position free.
abbrev pub ignores : RmState → Event → Bool
ignores RmState.idle request = false
ignores RmState.idle _ = true
ignores RmState.downloading request = true
ignores RmState.downloading song_end = true
ignores RmState.downloading _ = false
ignores RmState.playing complete = true
ignores RmState.playing error = true
ignores RmState.playing _ = false
ignores RmState.playing_downloading request = true
ignores RmState.playing_downloading _ = false
ignores RmState.playing_downloaded song_end = false
ignores RmState.playing_downloaded _ = true

-- The state of the machine before and after an event.
pub data Edge : RmState → Event → RmState → Type 0 where
  accept_idle : {t : RmState} → Then idle t → Edge idle request t
  accept_playing : {t : RmState} → Then playing t → Edge playing request t
  first_song : {t : RmState} → Then playing t → Edge downloading complete t
  first_missing : {t : RmState} → Then idle t → Edge downloading complete t
  give_up : {t : RmState} → Then idle t → Edge downloading error t
  finish : {t : RmState} → Then idle t → Edge playing song_end t
  wait_download : Edge playing_downloading song_end downloading
  ahead : Edge playing_downloading complete playing_downloaded
  retry : {t : RmState} → Then playing t → Edge playing_downloading error t
  next_song : {t : RmState} → Then playing t → Edge playing_downloaded song_end t
  next_missing : {t : RmState} → Then idle t → Edge playing_downloaded song_end t
  ignore : {s : RmState} {e : Event} → ignores s e ≡ true → Edge s e s

-- The machine leaves the jukebox as it is.
pub record Moved (active : ℕ) (P : RmState → Type 0) (rm' : RManager) : Type 0 where
  pub kept : rm'.is_active ≡ active
  pub moved : P rm'.rm_state

Moved-mono :
    {active : ℕ} {P Q : RmState → Type 0} {rm : RManager}
    → ((s : RmState) → P s → Q s)
    → Moved active P rm
    → Moved active Q rm
Moved-mono {rm} weaken m = record { kept = m.kept; moved = weaken rm.rm_state m.moved }

scheduled_state-Then : (s : RmState) → Then s (scheduled_state s)
unfolding scheduled_state
scheduled_state-Then RmState.idle = first_download
scheduled_state-Then RmState.playing = next_download
scheduled_state-Then RmState.downloading = stay
scheduled_state-Then RmState.playing_downloading = stay
scheduled_state-Then RmState.playing_downloaded = stay

start_download-Moved :
    (rm : RManager) (req : Option Mp3FileReq)
    → Moved rm.is_active (Then rm.rm_state) (start_download rm req)
unfolding start_download
start_download-Moved rm none = record { kept = refl; moved = stay }
start_download-Moved rm (some req) = record {
  kept = refl;
  moved = scheduled_state-Then rm.rm_state;
}

run_call_schedular-Moved :
    (rm : RManager) (P : RmState → Type 0)
    → ((s : RmState) → Then rm.rm_state s → P s)
    → Ensures (Moved rm.is_active P) (run_call_schedular rm)
unfolding run_call_schedular
run_call_schedular-Moved rm P weaken =
    Ensures-any _ (get_client_request_for_downloading rm.server)
      (λ r. ok (start_download (with_server rm r.1) r.0))
      λ r. Moved-mono weaken (start_download-Moved (with_server rm r.1) r.0)

play_file-Moved :
    (rm : RManager) (P : RmState → Type 0)
    → ((s : RmState) → Then playing s → P s)
    → ((s : RmState) → Then idle s → P s)
    → (file : Option FileName)
    → Ensures (Moved rm.is_active P) (run_call_schedular (play_file rm file))
unfolding play_file
play_file-Moved rm P found missing none = run_call_schedular-Moved (with_state rm idle) P missing
play_file-Moved rm P found missing (some file) = run_call_schedular-Moved _ P found

play_next-Moved :
    (rm : RManager) (P : RmState → Type 0)
    → ((s : RmState) → Then playing s → P s)
    → ((s : RmState) → Then idle s → P s)
    → Ensures (Moved rm.is_active P) (play_next rm)
unfolding play_next
play_next-Moved rm P found missing =
    Ensures-any _ (get_client_request_for_playing rm.server)
      (λ r. run_call_schedular (play_file (with_server rm r.1) r.0))
      λ r. play_file-Moved (with_server rm r.1) P found missing r.0

-- The entries of one row of the table.
idle-Moved :
    (rm : RManager) (msg : RmMsg)
    → rm.rm_state ≡ idle
    → Ensures (Moved rm.is_active (Edge idle (event msg))) (run_entry (rm_run_state idle msg) rm)
unfolding run_entry run_state_func rm_run_state
idle-Moved rm (clnt_msg m) e = run_call_schedular-Moved rm _ λ s t. accept_idle (rw e at t)
idle-Moved rm _ e = record { kept = refl; moved = rw e (ignore refl) }

play_from-downloading :
    (rm : RManager) → rm.rm_state ≡ downloading → play_from rm.rm_state rm ≡ play_next rm
unfolding play_from
play_from-downloading rm e = ap (λ s. play_from s rm) e

play_from-playing_downloaded :
    (rm : RManager) → rm.rm_state ≡ playing_downloaded → play_from rm.rm_state rm ≡ play_next rm
unfolding play_from
play_from-playing_downloaded rm e = ap (λ s. play_from s rm) e

downloading-Moved :
    (rm : RManager) (msg : RmMsg)
    → rm.rm_state ≡ downloading
    → Ensures
        (Moved rm.is_active (Edge downloading (event msg)))
        (run_entry (rm_run_state downloading msg) rm)
unfolding run_entry run_state_func rm_run_state
downloading-Moved rm (dw_complete r) e =
    rw (play_from-downloading rm e)
      (play_next-Moved rm _ (λ s t. first_song t) (λ s t. first_missing t))
downloading-Moved rm (dw_err r) e = run_call_schedular-Moved (with_state rm idle) _ λ s t. give_up t
downloading-Moved rm _ e = record { kept = refl; moved = rw e (ignore refl) }

playing-Moved :
    (rm : RManager) (msg : RmMsg)
    → rm.rm_state ≡ playing
    → Ensures
        (Moved rm.is_active (Edge playing (event msg)))
        (run_entry (rm_run_state playing msg) rm)
unfolding run_entry run_state_func rm_run_state
playing-Moved rm (clnt_msg m) e = run_call_schedular-Moved rm _ λ s t. accept_playing (rw e at t)
playing-Moved rm (dw_complete r) e = record { kept = refl; moved = rw e (ignore refl) }
playing-Moved rm (dw_err r) e = record { kept = refl; moved = rw e (ignore refl) }
playing-Moved rm _ e = run_call_schedular-Moved (with_state rm idle) _ λ s t. finish t

playing_downloading-Moved :
    (rm : RManager) (msg : RmMsg)
    → rm.rm_state ≡ playing_downloading
    → Ensures
        (Moved rm.is_active (Edge playing_downloading (event msg)))
        (run_entry (rm_run_state playing_downloading msg) rm)
unfolding run_entry run_state_func rm_run_state
playing_downloading-Moved rm (clnt_msg m) e = record { kept = refl; moved = rw e (ignore refl) }
playing_downloading-Moved rm (dw_complete r) e = record { kept = refl; moved = ahead }
playing_downloading-Moved rm (dw_err r) e =
    run_call_schedular-Moved (with_state rm playing) _ λ s t. retry t
playing_downloading-Moved rm _ e = record { kept = refl; moved = wait_download }

playing_downloaded-Moved :
    (rm : RManager) (msg : RmMsg)
    → rm.rm_state ≡ playing_downloaded
    → Ensures
        (Moved rm.is_active (Edge playing_downloaded (event msg)))
        (run_entry (rm_run_state playing_downloaded msg) rm)
unfolding run_entry run_state_func rm_run_state
playing_downloaded-Moved rm (clnt_msg m) e = record { kept = refl; moved = rw e (ignore refl) }
playing_downloaded-Moved rm (dw_complete r) e = record { kept = refl; moved = rw e (ignore refl) }
playing_downloaded-Moved rm (dw_err r) e = record { kept = refl; moved = rw e (ignore refl) }
playing_downloaded-Moved rm _ e =
    rw (play_from-playing_downloaded rm e)
      (play_next-Moved rm _ (λ s t. next_song t) (λ s t. next_missing t))

row-Moved :
    (state : RmState) (rm : RManager) (msg : RmMsg)
    → rm.rm_state ≡ state
    → Ensures (Moved rm.is_active (Edge state (event msg))) (run_entry (rm_run_state state msg) rm)
row-Moved RmState.idle rm msg e = idle-Moved rm msg e
row-Moved RmState.downloading rm msg e = downloading-Moved rm msg e
row-Moved RmState.playing rm msg e = playing-Moved rm msg e
row-Moved RmState.playing_downloading rm msg e = playing_downloading-Moved rm msg e
row-Moved RmState.playing_downloaded rm msg e = playing_downloaded-Moved rm msg e

-- Every run of the machine that ends follows an edge of the diagram, and keeps the jukebox's flag.
pub run_machine-Edge :
    (rm : RManager) (msg : RmMsg)
    → Ensures (Moved rm.is_active (Edge rm.rm_state (event msg))) (run_machine msg rm)
unfolding run_machine
run_machine-Edge rm msg = row-Moved rm.rm_state rm msg refl
