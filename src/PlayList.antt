-- ===== src/PlayList.antt =====
-- MusicServer/inc/playlist.h and MusicServer/src/playlist.c: the requests of each client and their
-- round-robin scheduling. Each operation but the size test of `addToPlayList` runs under
-- `playListLock`; a thread that already holds it waits for itself. An `int` or `char` index out of
-- `pList` is a fault.
pub mod Invariant
pub mod Schedule
pub mod Status
pub mod Soundness
pub mod Calls
pub mod Deletion
pub mod Promotion
use music_server_app.Base.{
  ℕ, zero, suc, ◌+◌, ◌-◌, ◌%◌, Bool, true, false, not, Option, none, some, List, [], ◌∷◌, Outcome,
  g_ok, g_err, g_fail, is_g_ok, if◌then◌else◌, ltb, ◌==◌, u32_add, u32_sub, ge_max_client, in_array,
  max_client, update, get_elem?, set,
}
use music_server_app.Base.Run.{Run, ok, out_of_bounds, deadlock, ◌>>=◌, ◌>>◌, require}
use music_server_app.NodeList.{
  NodeList, init_list, add_last, delete_all_from_list, delete_one_from_list_having,
}

-- `PL_STATE`
pub data PlState : Type 0 where
  unset waiting downloading ready playing : PlState

abbrev pub same_state : PlState → PlState → Bool
same_state PlState.unset PlState.unset = true
same_state PlState.waiting PlState.waiting = true
same_state PlState.downloading PlState.downloading = true
same_state PlState.ready PlState.ready = true
same_state PlState.playing PlState.playing = true
same_state _ _ = false

-- `PlayListData`; `payload` is what `data` points to.
pub record Request : Type 0 where
  pub token : ℕ
  pub id : ℕ
  pub pl_status : PlState
  pub payload : List ℕ
  pub size : ℕ

-- `PLAYLIST` without its table of functions. The two clients are `char`s.
pub record PlayList : Type 0 where
  pub p_list : ℕ → NodeList Request
  pub play_list_size : ℕ
  pub current_playing : ℕ
  pub current_downloading : ℕ
  pub locked : Bool

abbrev pub max_playlist : ℕ
max_playlist = 100

-- -1 in a `char`, which is unsigned on ARM.
abbrev pub no_client : ℕ
no_client = 255

unfoldable pub init_play_list : PlayList
unfolding init_list
init_play_list = record {
  p_list = λ _. init_list;
  play_list_size = 0;
  current_playing = no_client;
  current_downloading = no_client;
  locked = false;
}

unfoldable pub lock : PlayList → Run (Unit {0})
lock pl = require (not pl.locked) deadlock

unfoldable pub put_list : PlayList → ℕ → NodeList Request → PlayList
put_list pl i l = record pl { p_list = update pl.p_list i l }

unfoldable pub add_to_play_list : PlayList → ℕ → ℕ → List ℕ → ℕ → Run (Outcome × PlayList)
add_to_play_list pl clnt_id tok clnt_data size =
    if not (ltb pl.play_list_size max_playlist) then ok (g_err, pl) else do
      lock pl
      require (in_array clnt_id) out_of_bounds
      let request : Request = record {
        token = tok;
        id = clnt_id;
        pl_status = waiting;
        payload = clnt_data;
        size = size;
      }
      let pl' = put_list pl clnt_id (add_last (pl.p_list clnt_id) request)
      ok (g_ok, record pl' { play_list_size = u32_add pl.play_list_size 1 })

abbrev pub downloading_check : Request → Bool
downloading_check r = same_state r.pl_status downloading

abbrev pub playing_check : Request → Bool
playing_check r = same_state r.pl_status playing

abbrev pub token_check : ℕ → Request → Bool
token_check token r = r.token == token

-- `deleteOneFromListHaving` on the list of one client.
unfoldable pub delete_one_of : (Request → Bool) → PlayList → ℕ → Run (Outcome × PlayList)
delete_one_of test pl i = do
  lock pl
  require (in_array i) out_of_bounds
  let (res, l) = delete_one_from_list_having test (pl.p_list i)
  ok (res, put_list pl i l)

-- `playListSize = ok ? playListSize-- : playListSize` stores the old value again.
unfoldable pub delete_downloading : PlayList → Run (Outcome × PlayList)
delete_downloading pl = delete_one_of downloading_check pl pl.current_downloading

-- `playListSize = ok ? --playListSize : playListSize`
unfoldable pub count_down : Outcome × PlayList → Outcome × PlayList
count_down (res, pl) =
    (res, if is_g_ok res then record pl { play_list_size = u32_sub pl.play_list_size 1 } else pl)

unfoldable pub delete_playing : PlayList → Run (Outcome × PlayList)
unfolding count_down
delete_playing pl = do r ← delete_one_of playing_check pl pl.current_playing; ok (count_down r)

unfoldable pub delete_from_play_list : PlayList → ℕ → Run (Outcome × PlayList)
delete_from_play_list pl client_id = do
  lock pl
  require (in_array client_id) out_of_bounds
  let l = pl.p_list client_id
  let pl' = put_list pl client_id (delete_all_from_list l)
  ok (g_ok, record pl' { play_list_size = u32_sub pl.play_list_size l.total_node })

-- The answer is `G_OK` whether or not the token was found.
unfoldable pub delete_from_client_having_token : PlayList → ℕ → ℕ → Run (Outcome × PlayList)
delete_from_client_having_token pl client_id pl_token =
    if ge_max_client client_id
    then ok (g_fail, pl)
    else do (_, pl') ← delete_one_of (token_check pl_token) pl client_id; ok (g_ok, pl')

-- `int currentClient` after its first `++` and `% (MAX_CLIENT - 1)`. Where no request has been
-- downloaded yet it comes from 255.
unfoldable pub first_client : ℕ → ℕ
first_client c = (c + 1) % (max_client - 1)

-- The request at a place of a client's list, if it has the state.
unfoldable pub request_at : PlState → PlayList → ℕ → ℕ → Option Request
request_at want pl client place = elim (get_elem? (pl.p_list client).nodes place) [
  | none ↦ none
  | some r ↦ if same_state r.pl_status want then some r else none
]

-- The rounds that the `for` loop has left, with the client to look at.
unfoldable pub scan_clients : ℕ → PlState → PlayList → ℕ → Option (ℕ × Request)
scan_clients zero want pl client = none
scan_clients (suc rounds) want pl client =
    let rest = scan_clients rounds want pl ((client + 1) % (max_client - 1)) in
    elim (request_at want pl client 0) [ none ↦ rest | some r ↦ some (client, r) ]

-- A request that was found, with the client and the place in the list where it stands.
pub record Found : Type 0 where
  pub client : ℕ
  pub place : ℕ
  pub request : Request

abbrev pub found_at : ℕ → Option Request → Option Found
found_at client none = none
found_at client (some r) = some (record { client = client; place = 1; request = r })

-- The second request of the current client, when no client's first one will do. An unsigned `char` is
-- never below 0, so the test before it is not met, and 255 indexes `pList` out of its bounds.
unfoldable pub fall_back : PlState → PlayList → Run (Option Found)
fall_back want pl = do
  require (in_array pl.current_downloading) out_of_bounds
  ok (found_at pl.current_downloading (request_at want pl pl.current_downloading 1))

-- The ten rounds from a first client on, and the current client when they find nothing.
unfoldable pub search_from : PlState → PlayList → ℕ → Run (Option Found)
search_from want pl start = elim (scan_clients max_client want pl start) [
  | none ↦ fall_back want pl
  | some (client, r) ↦ ok (some (record { client = client; place = 0; request = r }))
]

-- `none` is any answer but `G_OK`.
unfoldable pub play_list_scheduler : PlayList → PlState → Run (Option Found)
play_list_scheduler pl want = search_from want pl (first_client pl.current_downloading)

unfoldable pub set_status : PlayList → ℕ → ℕ → Request → PlState → PlayList
set_status pl client place r state =
    let l = pl.p_list client in
    put_list pl client (record l { nodes = set l.nodes place (record r { pl_status = state }) })

-- The scheduled request's client and token, or `none` for `G_FAIL`; the request's new state is
-- written through the pointer that the scheduler gave.
unfoldable pub mark_downloading : PlayList → Option Found → Option (ℕ × ℕ) × PlayList
mark_downloading pl none = (none, pl)
mark_downloading pl (some f) = (
  some (f.request.id, f.request.token),
  record (set_status pl f.client f.place f.request downloading) {
    current_downloading = f.request.id;
  },
)

unfoldable pub get_one_for_downloading : PlayList → Run (Option (ℕ × ℕ) × PlayList)
unfolding mark_downloading
get_one_for_downloading pl = do
  lock pl
  found ← play_list_scheduler pl waiting
  ok (mark_downloading pl found)

unfoldable pub mark_playing : PlayList → Option Found → Option (ℕ × ℕ) × PlayList
mark_playing pl none = (none, pl)
mark_playing pl (some f) = (
  some (f.request.id, f.request.token),
  record (set_status pl f.client f.place f.request playing) { current_playing = f.request.id },
)

unfoldable pub get_one_for_playing : PlayList → Run (Option (ℕ × ℕ) × PlayList)
unfolding mark_playing
get_one_for_playing pl = do
  lock pl
  found ← play_list_scheduler pl ready
  ok (mark_playing pl found)

-- The first request with state `from` goes to state `to`.
unfoldable pub promote : PlState → PlState → List Request → Option (List Request)
promote from to [] = none
promote from to (r ∷ rs) =
    let rest = promote from to rs in
    if same_state r.pl_status from
    then some (record r { pl_status = to } ∷ rs)
    else elim rest [ none ↦ none | some rs' ↦ some (r ∷ rs') ]

-- The state that a request has to be in to go to `state`.
abbrev pub before_state : PlState → Option PlState
before_state PlState.playing = some ready
before_state PlState.ready = some downloading
before_state _ = none

unfoldable pub promote_in : PlayList → ℕ → PlState → PlState → Run (Outcome × PlayList)
promote_in pl client_id from to = do
  lock pl
  require (in_array client_id) out_of_bounds
  let l = pl.p_list client_id
  elim (promote from to l.nodes) [
    | none ↦ ok (g_fail, pl)
    | some rs ↦ ok (
      g_ok,
      record (put_list pl client_id (record l { nodes = rs })) { current_playing = client_id },
    )
  ]

-- Both promotions store the client as `currentPlayingClient`.
unfoldable pub set_play_list_status : PlayList → ℕ → PlState → Run (Outcome × PlayList)
set_play_list_status pl client_id state = elim (before_state state) [
  | none ↦ ok (g_fail, pl)
  | some from ↦ promote_in pl client_id from state
]
