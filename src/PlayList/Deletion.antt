-- ===== src/PlayList/Deletion.antt =====
-- What the deletions of MusicServer/src/playlist.c remove, and what `playListSize` then counts.
use music_server_app.Base.{
  ℕ, ◌<◌, ◌≡◌, ◌≢◌, ◌⊎◌, ◌∙◌, inl, inr, refl, Bool, true, false, arith, Outcome, g_ok, g_err,
  g_fail, if◌then◌else◌, ◌==◌, lt→ltb, max_client, u32_sub, Option-cases, is_g_ok, ge_max_client,
}
use music_server_app.Base.Run.{ok, Returns, Returns-bind, Returns-mono}
use music_server_app.NodeList.{NodeList, delete_one_from_list_having}
use music_server_app.NodeList.Laws.{
  Removes, Rejects, Found, NotFound, delete_one_from_list_having_lem,
}
use music_server_app.PlayList.{
  no_client, Request, PlayList, PlState, ready, downloading, playing, put_list, delete_one_of,
  downloading_check, playing_check, token_check, delete_downloading, count_down, delete_playing,
  delete_from_client_having_token, set_play_list_status, promote_in, promote,
}
use music_server_app.PlayList.Invariant.{IsSound, lock-IsSound}
use music_server_app.PlayList.Soundness.{set_play_list_status-IsSound}

-- In the list of client `c` the first request that the test accepts is gone, or none is accepted and
-- nothing has changed; all else is as it was.
pub record Deleted (test : Request → Bool) (pl : PlayList) (c : ℕ) (res : Outcome) (pl' : PlayList)
    : Type 0 where
  pub in_list :
      Found test (pl.p_list c) (res, pl'.p_list c) ⊎ NotFound test (pl.p_list c) (res, pl'.p_list c)
  pub elsewhere : (a : ℕ) → a ≢ c → pl'.p_list a ≡ pl.p_list a
  pub same_size : pl'.play_list_size ≡ pl.play_list_size

pub p_list-put_list :
    (pl : PlayList) (c : ℕ) (l : NodeList Request) → (put_list pl c l).p_list c ≡ l
unfolding put_list
p_list-put_list pl c l = let same : (c == c) ≡ true = ground arith in rw same

pub p_list-put_list_elsewhere :
    (pl : PlayList) (c : ℕ) (l : NodeList Request) (a : ℕ)
    → a ≢ c
    → (put_list pl c l).p_list a ≡ pl.p_list a
unfolding put_list
p_list-put_list_elsewhere pl c l a ne = let other : (a == c) ≡ false = ground arith in rw other

put_list_keeps_size :
    (pl : PlayList) (c : ℕ) (l : NodeList Request)
    → (put_list pl c l).play_list_size ≡ pl.play_list_size
unfolding put_list
put_list_keeps_size pl c l = refl

module _ (test : Request → Bool) {pl : PlayList} (s : IsSound pl) (c : ℕ) (h : c < max_client) where
  pub delete_one_of-Deleted :
      Returns (λ (res, pl'). Deleted test pl c res pl') (delete_one_of test pl c)
  unfolding delete_one_of
  delete_one_of-Deleted =
      let r = delete_one_from_list_having test (pl.p_list c) in
      rw (lock-IsSound s, lt→ltb _ _ h)
        (record {
          in_list =
              rw (p_list-put_list pl c r.1) (delete_one_from_list_having_lem test (pl.p_list c));
          elsewhere = p_list-put_list_elsewhere pl c r.1;
          same_size = put_list_keeps_size pl c r.1;
        })

-- `deleteDownloading` ends and removes the first request of the downloading client that is
-- `PL_DOWNLOADING`, or changes nothing where there is none, once a download has been started.
-- Either way `playListSize` stays what it was.
pub delete_downloading-Deleted :
    {pl : PlayList}
    → IsSound pl
    → pl.current_downloading ≢ no_client
    → Returns
        (λ (res, pl'). Deleted downloading_check pl pl.current_downloading res pl')
        (delete_downloading pl)
unfolding delete_downloading
delete_downloading-Deleted {pl} s h =
    delete_one_of-Deleted downloading_check s pl.current_downloading
      (ground (arith, s.downloads, h))

-- What a deletion leaves, with `playListSize` counted down if it was a success.
abbrev pub Counted : (Request → Bool) → PlayList → ℕ → Outcome × PlayList → Type 0
Counted test pl c (res, pl') =
    (Found test (pl.p_list c) (res, pl'.p_list c) ⊎ NotFound test (pl.p_list c) (res, pl'.p_list c))
    × ((a : ℕ) → a ≢ c → pl'.p_list a ≡ pl.p_list a)
    × (pl'.play_list_size
        ≡ (if is_g_ok res then u32_sub pl.play_list_size 1 else pl.play_list_size))

count_down-Counted :
    (test : Request → Bool) (pl : PlayList) (c : ℕ) (r : Outcome × PlayList)
    → Deleted test pl c r.0 r.1
    → Counted test pl c (count_down r)
unfolding count_down
count_down-Counted test pl c (g_ok, pl') d = (d.in_list, d.elsewhere, rw (d.same_size))
count_down-Counted test pl c (g_err, pl') d = (d.in_list, d.elsewhere, d.same_size)
count_down-Counted test pl c (g_fail, pl') d = (d.in_list, d.elsewhere, d.same_size)

-- `deletePlaying` ends and removes the first request of the playing client that is `PL_PLAYING`
-- and counts `playListSize` down, or changes nothing where there is none, once a song has been
-- started.
pub delete_playing-Counted :
    {pl : PlayList}
    → IsSound pl
    → pl.current_playing ≢ no_client
    → Returns (Counted playing_check pl pl.current_playing) (delete_playing pl)
unfolding delete_playing
delete_playing-Counted {pl} s h =
    let here : pl.current_playing < max_client = ground (arith, s.plays, h) in
    Returns-bind (λ (res, pl'). Deleted playing_check pl pl.current_playing res pl') _
      (delete_one_of playing_check pl pl.current_playing) (λ r. ok (count_down r))
      (delete_one_of-Deleted playing_check s pl.current_playing here)
      (count_down-Counted playing_check pl pl.current_playing)

-- The first request with the token is gone from the list of client `c`, or none has it and the list
-- is as it was; the other lists and `playListSize` are as they were.
abbrev pub TokenGone : ℕ → PlayList → ℕ → PlayList → Type 0
TokenGone tok pl c pl' =
    (Removes (token_check tok) (pl.p_list c).nodes (pl'.p_list c).nodes
      ⊎ (Rejects (token_check tok) (pl.p_list c).nodes × (pl'.p_list c ≡ pl.p_list c)))
    × ((a : ℕ) → a ≢ c → pl'.p_list a ≡ pl.p_list a)
    × (pl'.play_list_size ≡ pl.play_list_size)

Deleted-TokenGone :
    (tok : ℕ) (pl : PlayList) (c : ℕ) (res : Outcome) (pl' : PlayList)
    → Deleted (token_check tok) pl c res pl'
    → TokenGone tok pl c pl'
Deleted-TokenGone tok pl c res pl' d = elim d.in_list [
  | inl (_, removed, _) ↦ (inl removed, d.elsewhere, d.same_size)
  | inr (_, rejected, same) ↦ (inr (rejected, same), d.elsewhere, d.same_size)
]

-- For a client that exists, `deleteFromClientHavingToken` ends with `G_OK` whether the token is in
-- the client's list or not. The first request that has the token is gone, and `playListSize` stays
-- what it was.
pub delete_from_client_having_token_lem :
    {pl : PlayList}
    → IsSound pl
    → (c tok : ℕ) → c < max_client
    → Returns
        (λ (res, pl'). (res ≡ g_ok) × TokenGone tok pl c pl')
        (delete_from_client_having_token pl c tok)
unfolding delete_from_client_having_token
delete_from_client_having_token_lem {pl} s c tok h =
    let small : ge_max_client c ≡ false = ground arith in
    rw small (
      Returns-bind (λ (res, pl'). Deleted (token_check tok) pl c res pl') _
        (delete_one_of (token_check tok) pl c) (λ (_, pl'). ok (g_ok, pl'))
        (delete_one_of-Deleted (token_check tok) s c h)
        (λ (res, pl') d. (refl, Deleted-TokenGone tok pl c res pl' d)))

-- A change of state that succeeds makes the client the playing one and leaves the other lists.
abbrev Redirected : PlayList → ℕ → Outcome × PlayList → Type 0
Redirected pl c (res, pl1) =
    (res ≡ g_ok → pl1.current_playing ≡ c) × ((a : ℕ) → a ≢ c → pl1.p_list a ≡ pl.p_list a)

module _ {pl : PlayList} (s : IsSound pl) (c : ℕ) (h : c < max_client) where
  promote_in-Redirected : (from to : PlState) → Returns (Redirected pl c) (promote_in pl c from to)
  unfolding promote_in
  promote_in-Redirected from to =
      rw (lock-IsSound s, lt→ltb _ _ h)
        (elim (Option-cases (promote from to (pl.p_list c).nodes)) [
          | inl missing ↦ rw missing ((λ e. cc), λ a ne. refl)
          | inr (rs, found) ↦
              rw found
                ((λ e. refl), p_list-put_list_elsewhere pl c (record (pl.p_list c) { nodes = rs }))
        ])

  set_play_list_status-Redirected :
      (state : PlState) → Returns (Redirected pl c) (set_play_list_status pl c state)
  unfolding set_play_list_status
  set_play_list_status-Redirected PlState.playing = promote_in-Redirected ready playing
  set_play_list_status-Redirected PlState.ready = promote_in-Redirected downloading ready
  set_play_list_status-Redirected PlState.unset = ((λ e. cc), λ a ne. refl)
  set_play_list_status-Redirected PlState.waiting = ((λ e. cc), λ a ne. refl)
  set_play_list_status-Redirected PlState.downloading = ((λ e. cc), λ a ne. refl)

-- When `setPlayListStatus` has succeeded for client `c`, also for a download that is ready while a
-- song of another client `a` plays, `deletePlaying` removes nothing of client `a`.
pub delete_playing_misdirected :
    {pl pl1 : PlayList}
    → IsSound pl
    → (c a : ℕ) → c < max_client
    → a ≢ c
    → (state : PlState) → set_play_list_status pl c state ≡ ok (g_ok, pl1)
    → Returns (λ (_, pl2). pl2.p_list a ≡ pl.p_list a) (delete_playing pl1)
delete_playing_misdirected {pl} {pl1} s c a h ne state e =
    let s1 : IsSound pl1 = rw e at (set_play_list_status-IsSound s c state h) in
    let moved : Redirected pl c (g_ok, pl1) =
      rw e at (set_play_list_status-Redirected s c h state) in
    let at_c : pl1.current_playing ≡ c = moved.0 refl in
    Returns-mono (Counted playing_check pl1 pl1.current_playing) _ _
      (delete_playing-Counted s1 (omega (arith, at_c, h)))
      (λ (res, pl2) counted. counted.1 a (λ same. ne (same ∙ at_c)) ∙ moved.1 a ne)
