-- ===== src/PlayList/Calls.antt =====
-- Every operation of MusicServer/src/playlist.c keeps `IsSound`, in any order of calls.
use music_server_app.Base.{ℕ, ◌<◌, ◌≡◌, ◌≢◌, List, All, max_client}
use music_server_app.Base.Run.{
  Run, ok, ◌>>=◌, Returns, Returns-bind, Returns-mono, EndsUnless, EndsUnless-mono,
  EndsUnless-Returns,
}
use music_server_app.PlayList.{
  PlayList, PlState, waiting, ready, no_client, init_play_list, add_to_play_list,
  delete_downloading, delete_playing, delete_from_play_list, delete_from_client_having_token,
  get_one_for_downloading, get_one_for_playing, set_play_list_status,
}
use music_server_app.PlayList.Invariant.{
  IsSound, last_client, add_to_play_list-IsSound, init_play_list-IsSound,
}
use music_server_app.PlayList.Schedule.{Overreads}
use music_server_app.PlayList.Soundness.{
  Handed, get_one_for_downloading-IsSound, get_one_for_playing-IsSound,
  delete_from_play_list-IsSound, delete_downloading-IsSound, delete_playing-IsSound,
  delete_from_client_having_token-IsSound, set_play_list_status-IsSound,
}

-- The calls of the table of functions in `PLAYLIST`.
pub data Call : Type 0 where
  add : (client token size : ℕ) → List ℕ → Call
  get_download get_play drop_download drop_play : Call
  drop_all : (client : ℕ) → Call
  drop_token : (client token : ℕ) → Call
  set_state : (client : ℕ) → PlState → Call

-- `Run.◌>>=◌` keeps the play list of a call and drops its answer.
abbrev pub after_call {ℓ} : {A : Type ℓ} → Run (A × PlayList) → Run PlayList
after_call m = m >>= λ r. ok r.1

unfoldable pub perform : PlayList → Call → Run PlayList
perform pl (add c tok size bytes) = after_call (add_to_play_list pl c tok bytes size)
perform pl get_download = after_call (get_one_for_downloading pl)
perform pl get_play = after_call (get_one_for_playing pl)
perform pl drop_download = after_call (delete_downloading pl)
perform pl drop_play = after_call (delete_playing pl)
perform pl (drop_all c) = after_call (delete_from_play_list pl c)
perform pl (drop_token c tok) = after_call (delete_from_client_having_token pl c tok)
perform pl (set_state c state) = after_call (set_play_list_status pl c state)

-- The client exists, a download or a song that is to be dropped has been started before, and the
-- scheduler does not read out of bounds.
abbrev pub IsAllowed : PlayList → Call → Type 0
IsAllowed pl (add c tok size bytes) = c < max_client
IsAllowed pl get_download = ¬ Overreads waiting pl
IsAllowed pl get_play = ¬ Overreads ready pl
IsAllowed pl drop_download = pl.current_downloading ≢ no_client
IsAllowed pl drop_play = pl.current_playing ≢ no_client
IsAllowed pl (drop_all c) = c < max_client
IsAllowed pl (drop_token c tok) = c < max_client
IsAllowed pl (set_state c state) = c < max_client

after_call-IsSound {ℓ} :
    {A : Type ℓ} (m : Run (A × PlayList))
    → Returns (λ r. IsSound r.1) m
    → Returns IsSound (after_call m)
after_call-IsSound m h = Returns-bind (λ r. IsSound r.1) IsSound m (λ r. ok r.1) h (λ r v. v)

-- Every call for a client that exists ends and keeps the play list sound: requests stay in their
-- client's list, and the tenth client's stay `PL_WAITING`. A download or a song that is dropped has
-- been started before; and where a request is to be scheduled, one has been downloaded before, or
-- one of the first nine clients' lists begins with a request in the state.
pub perform-IsSound :
    (pl : PlayList) (call : Call)
    → IsSound pl
    → IsAllowed pl call
    → Returns IsSound (perform pl call)
unfolding perform
perform-IsSound pl (add c tok size bytes) s h =
    after_call-IsSound _ (add_to_play_list-IsSound c tok size bytes s h)
perform-IsSound pl get_download s h = after_call-IsSound _ (
    Returns-mono (λ (handed, pl'). Handed handed × IsSound pl') _ _
      (EndsUnless-Returns (λ (handed, pl'). Handed handed × IsSound pl') _
        (get_one_for_downloading-IsSound s) h)
      (λ r v. v.1))
perform-IsSound pl get_play s h =
    after_call-IsSound _
      (EndsUnless-Returns (λ (_, pl'). IsSound pl') _ (get_one_for_playing-IsSound s) h)
perform-IsSound pl drop_download s h = after_call-IsSound _ (delete_downloading-IsSound s h)
perform-IsSound pl drop_play s h = after_call-IsSound _ (delete_playing-IsSound s h)
perform-IsSound pl (drop_all c) s h = after_call-IsSound _ (delete_from_play_list-IsSound s c h)
perform-IsSound pl (drop_token c tok) s h =
    after_call-IsSound _ (delete_from_client_having_token-IsSound s c tok h)
perform-IsSound pl (set_state c state) s h =
    after_call-IsSound _ (set_play_list_status-IsSound s c state h)

-- Play lists that calls lead to.
pub data Reach : PlayList → Type 0 where
  start : Reach init_play_list
  call :
      {pl pl' : PlayList} (c : Call) → Reach pl → IsAllowed pl c → perform pl c ≡ ok pl' → Reach pl'

Reach-IsSound : {pl : PlayList} → Reach pl → IsSound pl
Reach-IsSound start = init_play_list-IsSound
Reach-IsSound (call {pl} c r h e) = rw e at (perform-IsSound pl c (Reach-IsSound r) h)

-- However the play list is used, `getOneForDownloading` ends, and what it hands out belongs to one of
-- the clients 0 to 8, unless nothing has been downloaded yet and none of these clients' lists begins
-- with a request that waits: it then reads out of bounds. Each request of client 9 is still
-- `PL_WAITING`.
pub tenth_client_starves :
    {pl : PlayList}
    → Reach pl
    → EndsUnless (Overreads waiting pl) (λ (handed, _). Handed handed) (get_one_for_downloading pl)
      × All (λ r. r.pl_status ≡ waiting) (pl.p_list last_client).nodes
tenth_client_starves r =
    let s = Reach-IsSound r in
    (
      EndsUnless-mono (λ (handed, pl'). Handed handed × IsSound pl') _ _
          (get_one_for_downloading-IsSound s) (λ r v. v.0),
      s.unserved,
    )
