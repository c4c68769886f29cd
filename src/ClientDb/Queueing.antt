-- ===== src/ClientDb/Queueing.antt =====
-- `addToClientQueueFunc` and `deleteFromQueueFunc` of MusicServer/src/clientdb.c: requests that come
-- and go.
use music_server_app.Base.{
  ℕ, ◌+◌, ◌≤◌, ◌<◌, ◌≡◌, ◌≢◌, ◌⊎◌, refl, inl, inr, true, false, List, arith, Outcome, g_ok, g_err,
  ltb, Bool-cases, lt→ltb, max_client, length, take-length,
}
use music_server_app.Base.Run.{ok, Returns, Returns-bind}
use music_server_app.NodeList.{add_last}
use music_server_app.PlayList.{PlayList, Request, waiting, max_playlist, add_to_play_list}
use music_server_app.PlayList.Invariant.{IsSound, lock-IsSound, add_to_play_list-IsSound}
use music_server_app.PlayList.Deletion.{p_list-put_list, p_list-put_list_elsewhere}
use music_server_app.ClientDb.{Server, is_unregistered}
use music_server_app.ClientDb.Register.{add_to_client_queue}
use music_server_app.ClientDb.Registry.{IsRegistry}

pub relist-IsRegistry :
    {s : Server} (pl' : PlayList) → IsRegistry s → IsSound pl' → IsRegistry (record s { pl = pl' })
relist-IsRegistry pl' r sound = record { sound = sound; vacant = r.vacant; distinct = r.distinct }

-- The request that a client's message makes.
abbrev pub request_of : ℕ → ℕ → List ℕ → Request
request_of id tok bytes = record {
  token = tok;
  id = id;
  pl_status = waiting;
  payload = bytes;
  size = length bytes;
}

-- A request of a registered client comes behind the client's others while there is room for it;
-- otherwise nothing changes.
pub data Queued (s : Server) (id tok : ℕ) (bytes : List ℕ) (s' : Server) : Outcome → Type 0 where
  refused :
      {res : Outcome}
      → res ≢ g_ok
      → (is_unregistered (s.client_state id) ≡ true) ⊎ (max_playlist ≤ s.pl.play_list_size)
      → s' ≡ s
      → Queued s id tok bytes s' res
  queued :
      is_unregistered (s.client_state id) ≡ false
      → s.pl.play_list_size < max_playlist
      → s'.pl.p_list id ≡ add_last (s.pl.p_list id) (request_of id tok bytes)
      → ((a : ℕ) → a ≢ id → s'.pl.p_list a ≡ s.pl.p_list a)
      → s'.pl.play_list_size ≡ s.pl.play_list_size + 1
      → s'.cdb ≡ s.cdb
      → Queued s id tok bytes s' g_ok

-- The play list after a request was let in.
abbrev Appended : PlayList → ℕ → Request → Outcome × PlayList → Type 0
Appended pl id r (res, pl') =
    (res ≡ g_ok)
    × (pl'.p_list id ≡ add_last (pl.p_list id) r)
    × ((a : ℕ) → a ≢ id → pl'.p_list a ≡ pl.p_list a)
    × (pl'.play_list_size ≡ pl.play_list_size + 1)
    × IsSound pl'

module _ {s : Server} (r : IsRegistry s) (id tok : ℕ) (h : id < max_client) where
  add_to_play_list-Appended :
      (bytes : List ℕ)
      → s.pl.play_list_size < max_playlist
      → Returns
          (Appended s.pl id (request_of id tok bytes))
          (add_to_play_list s.pl id tok bytes (length bytes))
  unfolding add_to_play_list
  add_to_play_list-Appended bytes room =
      let l = add_last (s.pl.p_list id) (request_of id tok bytes) in
      let v =
        rw (add_to_play_list, lt→ltb _ _ room, lock-IsSound r.sound, lt→ltb _ _ h) at
          (add_to_play_list-IsSound id tok (length bytes) bytes r.sound h) in
      rw (lt→ltb _ _ room, lock-IsSound r.sound, lt→ltb _ _ h)
        (
          refl,
          p_list-put_list s.pl id l,
          p_list-put_list_elsewhere s.pl id l,
          omega (arith, room),
          v,
        )

  add_to_play_list_full :
      (bytes : List ℕ)
      → ltb s.pl.play_list_size max_playlist ≡ false
      → add_to_play_list s.pl id tok bytes (length bytes) ≡ ok (g_err, s.pl)
  unfolding add_to_play_list
  add_to_play_list_full bytes full = rw full

  -- `addToClientQueueFunc` of a client number in range ends, with `G_OK` exactly where the client is
  -- registered and the play list has room. The request then stands last in the client's list, as
  -- `PL_WAITING`; otherwise nothing changes.
  pub add_to_client_queue-Queued :
      (bytes : List ℕ)
      → Returns
          (λ (res, s'). IsRegistry s' × Queued s id tok bytes s' res)
          (add_to_client_queue s id tok bytes (length bytes))
  unfolding add_to_client_queue
  add_to_client_queue-Queued bytes =
      let all_there : ltb (length bytes) (length bytes) ≡ false = ground arith in
      rw (lt→ltb _ _ h) (elim (Bool-cases (is_unregistered (s.client_state id))) [
        | inl u ↦ rw u (r, refused (λ e. cc) (inl u) refl)
        | inr u ↦
            rw (u, all_there, take-length bytes)
              (elim (Bool-cases (ltb s.pl.play_list_size max_playlist)) [
                | inl room ↦
                    Returns-bind (Appended s.pl id (request_of id tok bytes)) _
                      (add_to_play_list s.pl id tok bytes (length bytes)) _
                      (add_to_play_list-Appended bytes (ground arith))
                      λ (res, pl') (good, there, rest, size, sound). (
                        relist-IsRegistry pl' r sound,
                        rw good (queued u (ground arith) there rest size refl),
                      )
                | inr full ↦
                    rw (add_to_play_list_full bytes full)
                      (r, refused (λ e. cc) (inr (ground arith)) refl)
              ])
      ])
