-- ===== src/ResourceManager/Stall.antt =====
-- What becomes of the state machine of MusicServer/src/resourceManager.c once the jukebox is active,
-- whatever messages come and whatever the worker threads do meanwhile.
use music_server_app.Base.{◌≡◌, refl, inl, inr, ◌∙◌, true, false}
use music_server_app.Base.Run.{ok, Returns}
use music_server_app.ClientDb.{Server}
use music_server_app.ResourceManager.{
  RManager, RmState, playing, playing_downloading, playing_downloaded, RmMsg, clnt_msg, dw_complete,
  dw_err,
}
use music_server_app.ResourceManager.Machine.{
  with_server, serv_request, post_msg_to_rm, start_resource_manager, schedule_next_random_song,
}
use music_server_app.ResourceManager.Diagram.{
  is_song_end, Undisturbed, Follows, masked, moves, serv_request-Follows,
}
use music_server_app.ResourceManager.Edges.{
  Event, event, Then, stay, next_download, Edge, accept_idle, accept_playing, first_song,
  first_missing, give_up, finish, wait_download, ahead, retry, next_song, next_missing, ignore,
}

-- The manager serves a message, a worker thread changes what they share, or one posts a message.
pub data Step (rm : RManager) (rm' : RManager) : Type 0 where
  serve : (msg : RmMsg) → serv_request rm msg ≡ ok rm' → Step rm rm'
  work : (s : Server) → rm' ≡ with_server rm s → Step rm rm'
  post : (msg : RmMsg) → rm' ≡ post_msg_to_rm rm msg → Step rm rm'

pub data Reach (rm : RManager) : RManager → Type 0 where
  here : Reach rm rm
  next : {rm' rm'' : RManager} → Reach rm rm' → Step rm' rm'' → Reach rm rm''

-- What an active jukebox and the property `P` of the state keep.
pub record Keeps (P : RmState → Type 0) (rm : RManager) : Type 0 where
  pub active : rm.is_active ≡ 1
  pub holds : P rm.rm_state

-- Closed under the edges that an active jukebox leaves.
abbrev IsClosed : (RmState → Type 0) → Type 0
IsClosed P = (s t : RmState) (e : Event) → Edge s e t → is_song_end e ≡ false → P s → P t

Follows-Keeps :
    (P : RmState → Type 0)
    → IsClosed P
    → (rm : RManager) (msg : RmMsg) (rm' : RManager) → Follows rm msg rm'
    → Keeps P rm
    → Keeps P rm'
Follows-Keeps P closed rm msg rm' (masked a ended same) k = record {
  active = same.still_active;
  holds = rw same.same_state k.holds;
}
Follows-Keeps P closed rm msg rm' (moves (inl idle_box) m) k = absurd (idle_box k.active)
Follows-Keeps P closed rm msg rm' (moves (inr not_end) m) k = record {
  active = m.kept ∙ k.active;
  holds = closed rm.rm_state rm'.rm_state (event msg) m.moved not_end k.holds;
}

Step-Keeps :
    (P : RmState → Type 0)
    → IsClosed P
    → (rm rm' : RManager) → Step rm rm'
    → Keeps P rm
    → Keeps P rm'
unfolding post_msg_to_rm
Step-Keeps P closed rm rm' (serve msg e) k =
    Follows-Keeps P closed rm msg rm' (rw e at (serv_request-Follows rm msg)) k
Step-Keeps P closed rm rm' (work s e) k = rw e (record { active = k.active; holds = k.holds })
Step-Keeps P closed rm rm' (post msg e) k = rw e (record { active = k.active; holds = k.holds })

Reach-Keeps :
    (P : RmState → Type 0)
    → IsClosed P
    → {rm rm' : RManager} → Reach rm rm'
    → Keeps P rm
    → Keeps P rm'
Reach-Keeps P closed here k = k
Reach-Keeps P closed (next {rm'} {rm''} r st) k =
    Step-Keeps P closed rm' rm'' st (Reach-Keeps P closed r k)

-- A song of a client has been started.
pub data IsBusy : RmState → Type 0 where
  plays : IsBusy playing
  plays_downloading : IsBusy playing_downloading
  plays_downloaded : IsBusy playing_downloaded

Then-IsBusy : {t : RmState} → Then playing t → IsBusy t
Then-IsBusy stay = plays
Then-IsBusy next_download = plays_downloading

IsBusy-IsClosed : IsClosed IsBusy
IsBusy-IsClosed _ _ _ (accept_idle t) n b = elim b [ ]
IsBusy-IsClosed _ _ _ (accept_playing t) n b = Then-IsBusy t
IsBusy-IsClosed _ _ _ (first_song t) n b = Then-IsBusy t
IsBusy-IsClosed _ _ _ (first_missing t) n b = elim b [ ]
IsBusy-IsClosed _ _ _ (give_up t) n b = elim b [ ]
IsBusy-IsClosed _ _ _ (finish t) n b = cc
IsBusy-IsClosed _ _ _ wait_download n b = cc
IsBusy-IsClosed _ _ _ ahead n b = plays_downloaded
IsBusy-IsClosed _ _ _ (retry t) n b = Then-IsBusy t
IsBusy-IsClosed _ _ _ (next_song t) n b = cc
IsBusy-IsClosed _ _ _ (next_missing t) n b = cc
IsBusy-IsClosed _ _ _ (ignore _) n b = b

Downloaded-IsClosed : IsClosed (λ s. s ≡ playing_downloaded)
Downloaded-IsClosed _ _ _ (accept_idle t) n b = cc
Downloaded-IsClosed _ _ _ (accept_playing t) n b = cc
Downloaded-IsClosed _ _ _ (first_song t) n b = cc
Downloaded-IsClosed _ _ _ (first_missing t) n b = cc
Downloaded-IsClosed _ _ _ (give_up t) n b = cc
Downloaded-IsClosed _ _ _ (finish t) n b = cc
Downloaded-IsClosed _ _ _ wait_download n b = cc
Downloaded-IsClosed _ _ _ ahead n b = refl
Downloaded-IsClosed _ _ _ (retry t) n b = cc
Downloaded-IsClosed _ _ _ (next_song t) n b = cc
Downloaded-IsClosed _ _ _ (next_missing t) n b = cc
Downloaded-IsClosed _ _ _ (ignore _) n b = b

start-active : (rm : RManager) → (start_resource_manager rm).is_active ≡ 1
unfolding start_resource_manager schedule_next_random_song
start-active rm = refl

-- From the start of `runResourceManager` on, whatever messages come and whatever the workers do,
-- `isActive` of the jukebox is 1.
pub jukebox_stays_active :
    (rm : RManager) {rm' : RManager} → Reach (start_resource_manager rm) rm' → rm'.is_active ≡ 1
jukebox_stays_active rm r =
    (Reach-Keeps (λ _. Unit) (λ s t e edge n u. tt) r
      (record { active = start-active rm; holds = tt })).active

masked-Undisturbed :
    (rm : RManager) (msg : RmMsg) (rm' : RManager)
    → rm.is_active ≡ 1
    → is_song_end (event msg) ≡ true
    → Follows rm msg rm'
    → Undisturbed rm rm'
masked-Undisturbed rm msg rm' active ended (masked a e same) = same
masked-Undisturbed rm msg rm' active ended (moves (inl idle_box) m) = absurd (idle_box active)
masked-Undisturbed rm msg rm' active ended (moves (inr not_end) m) = cc

song_end-returns :
    (rm : RManager) (msg : RmMsg)
    → rm.is_active ≡ 1
    → is_song_end (event msg) ≡ true
    → (rm' : RManager) × (serv_request rm msg ≡ ok rm')
unfolding serv_request
song_end-returns rm RmMsg.mplayer_done active ended = (schedule_next_random_song rm, rw active)
song_end-returns rm RmMsg.mplayer_err active ended = (schedule_next_random_song rm, rw active)
song_end-returns rm RmMsg.mplayer_stop active ended = (rm, rw active)
song_end-returns rm (clnt_msg m) active ended = cc
song_end-returns rm (dw_complete r) active ended = cc
song_end-returns rm (dw_err r) active ended = cc

-- So the end of a song, or its being stopped, never has the record of a client's song removed, nor
-- moves the machine: the message is served, and clients, requests and state stay as they were.
pub song_end_is_lost :
    (rm : RManager) {rm' : RManager} (msg : RmMsg)
    → Reach (start_resource_manager rm) rm'
    → is_song_end (event msg) ≡ true
    → Returns (Undisturbed rm') (serv_request rm' msg)
song_end_is_lost rm {rm'} msg r ended =
    let active = jukebox_stays_active rm r in
    let (rm'', e) = song_end-returns rm' msg active ended in
    rw e (masked-Undisturbed rm' msg rm'' active ended (rw e at (serv_request-Follows rm' msg)))

-- Once a client's song has been started, the machine never again comes to `rm_Idle` or
-- `rm_Downloading`, the one state from which `moveToPlaying` can still start a song.
pub IsBusy-for_good :
    (rm : RManager) {rm' rm'' : RManager}
    → Reach (start_resource_manager rm) rm'
    → IsBusy rm'.rm_state
    → Reach rm' rm''
    → IsBusy rm''.rm_state
IsBusy-for_good rm before busy after =
    (Reach-Keeps IsBusy IsBusy-IsClosed after
      (record { active = jukebox_stays_active rm before; holds = busy })).holds

-- With one song started and the next one downloaded, the machine stays in `rm_Playing_Downloaded`.
pub playing_downloaded_is_final :
    (rm : RManager) {rm' rm'' : RManager}
    → Reach (start_resource_manager rm) rm'
    → rm'.rm_state ≡ playing_downloaded
    → Reach rm' rm''
    → rm''.rm_state ≡ playing_downloaded
playing_downloaded_is_final rm before final after =
    (Reach-Keeps (λ s. s ≡ playing_downloaded) Downloaded-IsClosed after
      (record { active = jukebox_stays_active rm before; holds = final })).holds
