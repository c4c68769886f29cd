-- ===== src/PlayList/Soundness.antt =====
-- Each function of the table in MusicServer/src/playlist.c keeps `IsSound`, and where it ends.
use music_server_app.Base.{
  ℕ, ◌<◌, ◌≡◌, ◌≢◌, inl, inr, refl, false, Option, none, some, arith, Outcome, g_ok, g_err, g_fail,
  Option-cases, All-set, All-get_elem?, lt→ltb, max_client, ge_max_client,
}
use music_server_app.Base.Run.{ok, Returns, Returns-bind, EndsUnless, EndsUnless-bind}
use music_server_app.NodeList.{delete_all_from_list}
use music_server_app.NodeList.Laws.{nodes-delete_all_from_list}
use music_server_app.PlayList.{
  Request, PlayList, PlState, waiting, downloading, ready, playing, no_client, request_at, Found,
  play_list_scheduler, same_state, delete_one_of, downloading_check, playing_check, token_check,
  delete_downloading, delete_playing, count_down, delete_from_play_list,
  delete_from_client_having_token, set_status, mark_downloading, mark_playing,
  get_one_for_downloading, get_one_for_playing, promote, promote_in, set_play_list_status,
}
use music_server_app.PlayList.Invariant.{
  IsSound, last_client, IsSound-Fits, put_list-IsSound, lock-IsSound, resize-IsSound, plays-IsSound,
  downloads-IsSound, delete_one_of-IsSound,
}
use music_server_app.PlayList.Status.{promote-Promotes, promote-Fits}
use music_server_app.PlayList.Schedule.{
  Overreads, Chosen, head, second, nothing, request_at-get_elem?, play_list_scheduler-Chosen,
}

-- A request that the scheduler may hand out: it is its client's, and not the tenth client's.
record IsServed (pl : PlayList) (f : Found) : Type 0 where
  served : f.client < last_client
  owner : f.request.id ≡ f.client

abbrev AnyServed : PlayList → Option Found → Type 0
AnyServed pl none = Unit {0}
AnyServed pl (some f) = IsServed pl f

-- What is handed out is a request of one of the first nine clients.
abbrev pub Handed : Option (ℕ × ℕ) → Type 0
Handed none = Unit {0}
Handed (some (client, token)) = client < last_client

-- A request that waits was chosen and is now downloaded, or there was none.
pub record Picked (pl : PlayList) (handed : Option (ℕ × ℕ)) (pl' : PlayList) : Type 0 where
  pub found : Option Found
  pub choice : Chosen waiting pl found
  pub marked : (handed, pl') ≡ mark_downloading pl found

module _ {pl : PlayList} (s : IsSound pl) where
  owner_at :
      (want : PlState) (c place : ℕ) {r : Request}
      → c < max_client
      → request_at want pl c place ≡ some r
      → r.id ≡ c
  owner_at want c place {r} h e =
      All-get_elem? (λ q. q.id ≡ c) _ place r (request_at-get_elem? want pl c place e).0
        (s.owned c h)

  Chosen-AnyServed : (want : PlState) (o : Option Found) → Chosen want pl o → AnyServed pl o
  Chosen-AnyServed want _ (head f) = record {
    served = omega (arith, f.reached);
    owner = owner_at want _ 0 (omega (arith, f.reached)) f.stands;
  }
  Chosen-AnyServed want _ (second idle h e) = record {
    served = h;
    owner = owner_at want _ 1 (omega arith) e;
  }
  Chosen-AnyServed want _ (nothing idle h e) = tt

  set_status-IsSound :
      (f : Found) (state : PlState)
      → IsServed pl f
      → IsSound (set_status pl f.client f.place f.request state)
  unfolding set_status
  set_status-IsSound f state v =
      let h : f.client < max_client = omega (arith, v.served) in
      put_list-IsSound f.client _ s (
        All-set (λ r. r.id ≡ f.client) (pl.p_list f.client).nodes f.place _ v.owner
            (s.owned f.client h),
        λ e. absurd (omega (arith, v.served)),
      )

  mark_downloading-IsSound :
      (o : Option Found)
      → AnyServed pl o
      → Handed (mark_downloading pl o).0 × IsSound (mark_downloading pl o).1
  unfolding mark_downloading
  mark_downloading-IsSound none v = (tt, s)
  mark_downloading-IsSound (some f) v =
      let h : f.request.id < last_client = omega (arith, v.served, v.owner) in
      (h, downloads-IsSound f.request.id (set_status-IsSound f downloading v) h)

  -- What `getOneForDownloading` hands out is the scheduler's choice, marked.
  pub get_one_for_downloading-Picked :
      EndsUnless
        (Overreads waiting pl)
        (λ (handed, pl'). Picked pl handed pl' × Handed handed × IsSound pl')
        (get_one_for_downloading pl)
  unfolding get_one_for_downloading
  get_one_for_downloading-Picked = rw (lock-IsSound s) (
      EndsUnless-bind (Chosen waiting pl) _ (play_list_scheduler pl waiting)
        (λ found. ok (mark_downloading pl found))
        (play_list_scheduler-Chosen waiting pl s.downloads)
        λ found c.
          let m = mark_downloading-IsSound found (Chosen-AnyServed waiting found c) in
          (record { found = found; choice = c; marked = refl }, m.0, m.1))

  mark_playing-IsSound : (o : Option Found) → AnyServed pl o → IsSound (mark_playing pl o).1
  unfolding mark_playing
  mark_playing-IsSound none v = s
  mark_playing-IsSound (some f) v =
      plays-IsSound f.request.id (set_status-IsSound f playing v) (omega (arith, v.served, v.owner))

  -- `getOneForDownloading` never hands out a request of the tenth client.
  pub get_one_for_downloading-IsSound :
      EndsUnless
        (Overreads waiting pl)
        (λ (handed, pl'). Handed handed × IsSound pl')
        (get_one_for_downloading pl)
  unfolding get_one_for_downloading
  get_one_for_downloading-IsSound = rw (lock-IsSound s) (
      EndsUnless-bind (Chosen waiting pl) _ (play_list_scheduler pl waiting)
        (λ found. ok (mark_downloading pl found))
        (play_list_scheduler-Chosen waiting pl s.downloads)
        λ found c. mark_downloading-IsSound found (Chosen-AnyServed waiting found c))

  pub get_one_for_playing-IsSound :
      EndsUnless (Overreads ready pl) (λ (_, pl'). IsSound pl') (get_one_for_playing pl)
  unfolding get_one_for_playing
  get_one_for_playing-IsSound = rw (lock-IsSound s) (
      EndsUnless-bind (Chosen ready pl) _ (play_list_scheduler pl ready)
        (λ found. ok (mark_playing pl found)) (play_list_scheduler-Chosen ready pl s.downloads)
        λ found c. mark_playing-IsSound found (Chosen-AnyServed ready found c))

  pub delete_from_play_list-IsSound :
      (c : ℕ) → c < max_client → Returns (λ (_, pl'). IsSound pl') (delete_from_play_list pl c)
  unfolding delete_from_play_list
  delete_from_play_list-IsSound c h =
      rw (lock-IsSound s, lt→ltb _ _ h)
        (resize-IsSound _ (
          put_list-IsSound c (delete_all_from_list (pl.p_list c)) s
            (rw (nodes-delete_all_from_list (pl.p_list c)) (tt, λ e. tt))))

  pub delete_downloading-IsSound :
      pl.current_downloading ≢ no_client → Returns (λ (_, pl'). IsSound pl') (delete_downloading pl)
  unfolding delete_downloading
  delete_downloading-IsSound h =
      delete_one_of-IsSound downloading_check s pl.current_downloading
        (ground (arith, s.downloads, h))

  count_down-IsSound : (r : Outcome × PlayList) → IsSound r.1 → IsSound (count_down r).1
  unfolding count_down
  count_down-IsSound (g_ok, pl') v = resize-IsSound _ v
  count_down-IsSound (g_err, pl') v = v
  count_down-IsSound (g_fail, pl') v = v

  pub delete_playing-IsSound :
      pl.current_playing ≢ no_client → Returns (λ (_, pl'). IsSound pl') (delete_playing pl)
  unfolding delete_playing
  delete_playing-IsSound h =
      let here : pl.current_playing < max_client = ground (arith, s.plays, h) in
      Returns-bind (λ (_, pl'). IsSound pl') _ (delete_one_of playing_check pl pl.current_playing)
        (λ r. ok (count_down r)) (delete_one_of-IsSound playing_check s pl.current_playing here)
        count_down-IsSound

  pub delete_from_client_having_token-IsSound :
      (c tok : ℕ)
      → c < max_client
      → Returns (λ (_, pl'). IsSound pl') (delete_from_client_having_token pl c tok)
  unfolding delete_from_client_having_token
  delete_from_client_having_token-IsSound c tok h =
      let small : ge_max_client c ≡ false = ground arith in
      rw small (
        Returns-bind (λ (_, pl'). IsSound pl') _ (delete_one_of (token_check tok) pl c)
          (λ (_, pl'). ok (g_ok, pl')) (delete_one_of-IsSound (token_check tok) s c h) (λ r v. v))

  promote_in-IsSound :
      (c : ℕ) (from to : PlState)
      → c < max_client
      → same_state waiting from ≡ false
      → Returns (λ (_, pl'). IsSound pl') (promote_in pl c from to)
  unfolding promote_in
  promote_in-IsSound c from to h not_waiting =
      rw (lock-IsSound s, lt→ltb _ _ h)
        (elim (Option-cases (promote from to (pl.p_list c).nodes)) [
          | inl missing ↦ rw missing s
          | inr (rs, found) ↦ rw found (
              plays-IsSound c
                (put_list-IsSound c (record (pl.p_list c) { nodes = rs }) s
                  (promote-Fits from to c (promote-Promotes from to _ found) not_waiting
                    (IsSound-Fits s c h)))
                h)
        ])

  pub set_play_list_status-IsSound :
      (c : ℕ) (state : PlState)
      → c < max_client
      → Returns (λ (_, pl'). IsSound pl') (set_play_list_status pl c state)
  unfolding set_play_list_status
  set_play_list_status-IsSound c PlState.playing h = promote_in-IsSound c ready playing h refl
  set_play_list_status-IsSound c PlState.ready h = promote_in-IsSound c downloading ready h refl
  set_play_list_status-IsSound c PlState.unset h = s
  set_play_list_status-IsSound c PlState.waiting h = s
  set_play_list_status-IsSound c PlState.downloading h = s
