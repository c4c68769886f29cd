-- ===== src/ResourceManager/Diagram.antt =====
-- What one message to the manager of MusicServer/src/resourceManager.c may do to its state.
use music_server_app.Base.{
  ◌≡◌, ◌≢◌, refl, ◌⊎◌, inl, inr, Bool, true, false, Bool-cases, if◌then◌else◌, ◌==◌, arith,
}
use music_server_app.Base.Run.{Run, ok, Ensures, Ensures-mono, Ensures-any}
use music_server_app.ClientDb.{Server, add_job_to_queue}
use music_server_app.ResourceManager.{
  RManager, RmMsg, clnt_msg, mplayer_done, mplayer_stop, mplayer_err, dw_complete, dw_err,
}
use music_server_app.ResourceManager.Machine.{
  with_server, run_machine, serv_request, schedule_next_random_song, and_run,
}
use music_server_app.ResourceManager.Edges.{Event, event, Edge, Moved, run_machine-Edge}

and_run-Edge :
    (rm : RManager) (msg : RmMsg) (work : Run Server)
    → Ensures (Moved rm.is_active (Edge rm.rm_state (event msg))) (and_run rm msg work)
and_run-Edge rm msg work =
    Ensures-any _ work (λ s. run_machine msg (with_server rm s))
      λ s. run_machine-Edge (with_server rm s) msg

abbrev pub is_song_end : Event → Bool
is_song_end Event.song_end = true
is_song_end Event.request = false
is_song_end Event.complete = false
is_song_end Event.error = false

-- The clients, their requests and the state of the machine are as they were.
pub record Undisturbed (rm rm' : RManager) : Type 0 where
  pub same_state : rm'.rm_state ≡ rm.rm_state
  pub same_clients : rm'.cdb ≡ rm.cdb
  pub same_requests : rm'.pl ≡ rm.pl
  pub still_active : rm'.is_active ≡ 1

-- What a message may do: nothing, where a song ends while the jukebox is active, and otherwise
-- follow an edge.
pub data Follows (rm : RManager) (msg : RmMsg) (rm' : RManager) : Type 0 where
  masked :
      rm.is_active ≡ 1 → is_song_end (event msg) ≡ true → Undisturbed rm rm' → Follows rm msg rm'
  moves :
      (rm.is_active ≢ 1) ⊎ (is_song_end (event msg) ≡ false)
      → Moved rm.is_active (Edge rm.rm_state (event msg)) rm'
      → Follows rm msg rm'

Follows-moves :
    (rm : RManager) (msg : RmMsg) (work : Run Server)
    → (rm.is_active ≢ 1) ⊎ (is_song_end (event msg) ≡ false)
    → Ensures (Follows rm msg) (and_run rm msg work)
Follows-moves rm msg work open_way =
    Ensures-mono _ _ _ (and_run-Edge rm msg work) λ rm' m. moves open_way m

song_end-Follows :
    (rm : RManager) (msg : RmMsg) (rm' : RManager) (work : Run Server)
    → is_song_end (event msg) ≡ true
    → (rm.is_active ≡ 1 → Undisturbed rm rm')
    → Ensures (Follows rm msg) (if rm.is_active == 1 then ok rm' else and_run rm msg work)
song_end-Follows rm msg rm' work ended same = elim (Bool-cases (rm.is_active == 1)) [
  | inl e ↦ let active : rm.is_active ≡ 1 = ground arith in rw e (masked active ended (same active))
  | inr e ↦ rw e (Follows-moves rm msg work (inl (ground arith)))
]

next_song-Undisturbed : (rm : RManager) → Undisturbed rm (schedule_next_random_song rm)
unfolding schedule_next_random_song add_job_to_queue
next_song-Undisturbed rm = record {
  same_state = refl;
  same_clients = refl;
  same_requests = refl;
  still_active = refl;
}

-- Every message that is served to its end follows an edge of the diagram and keeps the jukebox's
-- flag, or it is
-- the end of a song while the jukebox is active, and then clients, requests and state stay as they
-- were.
pub serv_request-Follows :
    (rm : RManager) (msg : RmMsg) → Ensures (Follows rm msg) (serv_request rm msg)
unfolding serv_request
serv_request-Follows rm (clnt_msg m) = Follows-moves rm (clnt_msg m) _ (inr refl)
serv_request-Follows rm (dw_complete r) = Follows-moves rm (dw_complete r) _ (inr refl)
serv_request-Follows rm (dw_err r) = Follows-moves rm (dw_err r) _ (inr refl)
serv_request-Follows rm RmMsg.mplayer_done =
    song_end-Follows rm mplayer_done _ _ refl (λ _. next_song-Undisturbed rm)
serv_request-Follows rm RmMsg.mplayer_err =
    song_end-Follows rm mplayer_err _ _ refl (λ _. next_song-Undisturbed rm)
serv_request-Follows rm RmMsg.mplayer_stop = song_end-Follows rm mplayer_stop _ _ refl λ active.
    record { same_state = refl; same_clients = refl; same_requests = refl; still_active = active }
