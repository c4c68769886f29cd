-- ===== src/ClientDb/Unqueueing.antt =====
-- `deleteFromQueueFunc` of MusicServer/src/clientdb.c: what becomes of a request that its client
-- takes back, by what the two file positions hold.
use music_server_app.Base.{
  ℕ, ◌<◌, ◌≡◌, ◌≢◌, ◌∙◌, refl, ap, update-same, inl, inr, true, false, ◌∷◌, arith, Outcome, g_ok,
  g_fail, Bool-cases, lt→ltb, max_client, ge_max_client,
}
use music_server_app.Base.Run.{Returns, Returns-bind, Returns-mono, Returns-both}
use music_server_app.PlayList.{PlState, playing, ready, unset, delete_from_client_having_token}
use music_server_app.PlayList.Invariant.{IsSound}
use music_server_app.PlayList.Soundness.{delete_from_client_having_token-IsSound}
use music_server_app.PlayList.Deletion.{TokenGone, delete_from_client_having_token_lem}
use music_server_app.ClientDb.{Server, is_unregistered, unlink, set_scheduled}
use music_server_app.ClientDb.Slots.{
  delete_request, delete_scheduled, delete_from_queue, holds_request, set_slot_status, with_status,
}
use music_server_app.ClientDb.Registry.{IsRegistry}
use music_server_app.ClientDb.Queueing.{relist-IsRegistry}

-- The first of the two positions that holds the request.
pub data Holder (s : Server) (id tok : ℕ) : ℕ → Type 0 where
  first : holds_request s 0 id tok ≡ true → Holder s id tok 0
  second : holds_request s 0 id tok ≡ false → holds_request s 1 id tok ≡ true → Holder s id tok 1

-- What a deletion leaves, and its answer.
pub data Unqueued (s : Server) (id tok : ℕ) (s' : Server) : Outcome → Type 0 where
  unknown : is_unregistered (s.client_state id) ≡ true → s' ≡ s → Unqueued s id tok s' g_fail
  stopped :
      {i : ℕ}
      → is_unregistered (s.client_state id) ≡ false
      → Holder s id tok i
      → (s.sch_data i).status ≡ playing
      → s' ≡ record s { stop = 1 }
      → Unqueued s id tok s' g_ok
  dropped :
      {i : ℕ}
      → is_unregistered (s.client_state id) ≡ false
      → Holder s id tok i
      → (s.sch_data i).status ≡ ready
      → s'.unlinked ≡ (s.sch_data i).file_name ∷ s.unlinked
      → (s'.sch_data i).status ≡ unset
      → TokenGone tok s.pl id s'.pl
      → Unqueued s id tok s' g_ok
  held :
      {i : ℕ}
      → is_unregistered (s.client_state id) ≡ false
      → Holder s id tok i
      → (s.sch_data i).status ≢ playing
      → (s.sch_data i).status ≢ ready
      → s' ≡ s
      → Unqueued s id tok s' g_fail
  removed :
      is_unregistered (s.client_state id) ≡ false
      → holds_request s 0 id tok ≡ false
      → holds_request s 1 id tok ≡ false
      → s'.unlinked ≡ s.unlinked
      → TokenGone tok s.pl id s'.pl
      → Unqueued s id tok s' g_ok

-- The request is gone from the play list, and no file or position has changed.
abbrev Requested : Server → ℕ → ℕ → Outcome × Server → Type 0
Requested s id tok (res, s') =
    IsRegistry s'
    × (res ≡ g_ok)
    × TokenGone tok s.pl id s'.pl
    × (s'.unlinked ≡ s.unlinked)
    × (s'.cdb ≡ s.cdb)

delete_request-Requested :
    {s : Server}
    → IsRegistry s
    → (id tok : ℕ) → id < max_client
    → Returns (Requested s id tok) (delete_request s id tok)
unfolding delete_request
delete_request-Requested {s} r id tok h =
    Returns-bind (λ (res, pl'). IsSound pl' × ((res ≡ g_ok) × TokenGone tok s.pl id pl')) _
      (delete_from_client_having_token s.pl id tok) _
      (Returns-both (λ (res, pl'). IsSound pl')
        (λ (res, pl'). (res ≡ g_ok) × TokenGone tok s.pl id pl')
        (delete_from_client_having_token s.pl id tok)
        (delete_from_client_having_token-IsSound r.sound id tok h)
        (delete_from_client_having_token_lem r.sound id tok h))
      (λ (res, pl') v. (relist-IsRegistry pl' r v.0, v.1.0, v.1.1, refl, refl))

-- A position's file, dropped.
abbrev dropped_file : Server → ℕ → Server
dropped_file s i = unlink (set_slot_status s i unset) (s.sch_data i).file_name

module _ {s : Server} (r : IsRegistry s) (id tok : ℕ) (h : id < max_client) where
  dropped_file-IsRegistry : (i : ℕ) → IsRegistry (dropped_file s i)
  unfolding unlink set_slot_status set_scheduled
  dropped_file-IsRegistry i = record { sound = r.sound; vacant = r.vacant; distinct = r.distinct }

  delete_scheduled-Unqueued :
      {i : ℕ}
      → is_unregistered (s.client_state id) ≡ false
      → Holder s id tok i
      → (state : PlState) → (s.sch_data i).status ≡ state
      → Returns
          (λ (res, s'). IsRegistry s' × Unqueued s id tok s' res)
          (delete_scheduled state s i id tok)
  unfolding delete_scheduled unlink set_slot_status set_scheduled
  delete_scheduled-Unqueued u k PlState.playing e =
      (record { sound = r.sound; vacant = r.vacant; distinct = r.distinct }, stopped u k e refl)
  delete_scheduled-Unqueued {i} u k PlState.ready e =
      Returns-mono (Requested (dropped_file s i) id tok) _ _
        (delete_request-Requested (dropped_file-IsRegistry i) id tok h)
        λ (res, s') (registry, good, gone, files, same). (
          registry,
          rw good (
              dropped u k e files
                (ap (λ d. (d.sch_data i).status) same
                  ∙ ap (λ d. d.status)
                      (update-same s.sch_data i (with_status (s.sch_data i) unset)))
                gone),
        )
  delete_scheduled-Unqueued u k PlState.unset e = (r, held u k (λ p. cc) (λ p. cc) refl)
  delete_scheduled-Unqueued u k PlState.waiting e = (r, held u k (λ p. cc) (λ p. cc) refl)
  delete_scheduled-Unqueued u k PlState.downloading e = (r, held u k (λ p. cc) (λ p. cc) refl)

  -- `deleteFromQueueFunc` of a client number in range ends. A client that is not registered is refused,
  -- and nothing changes. For a registered one a song that plays is stopped, a file that is ready is
  -- dropped with its request, a request that is downloaded is refused, and a request that neither
  -- position holds is gone from the play list.
  pub delete_from_queue-Unqueued :
      Returns (λ (res, s'). IsRegistry s' × Unqueued s id tok s' res) (delete_from_queue s id tok)
  unfolding delete_from_queue
  delete_from_queue-Unqueued =
      let small : ge_max_client id ≡ false = ground arith in
      rw (small, lt→ltb _ _ h)
        (elim (Bool-cases (is_unregistered (s.client_state id))) [
          | inl u ↦ rw u (r, unknown u refl)
          | inr u ↦ rw u (elim (Bool-cases (holds_request s 0 id tok)) [
            | inl at_first ↦
                rw at_first
                  (delete_scheduled-Unqueued u (first at_first) (s.sch_data 0).status refl)
            | inr not_first ↦ rw not_first (elim (Bool-cases (holds_request s 1 id tok)) [
              | inl at_second ↦ rw at_second (
                  delete_scheduled-Unqueued u (second not_first at_second) (s.sch_data 1).status
                    refl)
              | inr neither ↦ rw neither (
                  Returns-mono (Requested s id tok) _ _ (delete_request-Requested r id tok h)
                    λ (res, s') (registry, good, gone, files, same).
                      (registry, rw good (removed u not_first neither files gone)))
            ])
          ])
        ])
