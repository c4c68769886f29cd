-- ===== src/ClientDb/Deadlock.antt =====
-- `sendAllUpdateToClient` of MusicServer/src/clientdb.c, where the client cannot be reached.
use music_server_app.Base.{
  ℕ, zero, suc, ◌+◌, ◌<◌, ◌≡◌, ◌≢◌, refl, sym, ap, ◌∙◌, inl, inr, Bool, true, false, List, [], ◌∷◌,
  ◌++◌, arith, ◌==◌, Bool-cases, lt→ltb, max_client, length, g_fail, ge_max_client,
}
use music_server_app.Base.Run.{fault, deadlock, ◌>>=◌}
use music_server_app.NodeList.{IsCounted}
use music_server_app.Packet.{get_new_token}
use music_server_app.PlayList.{Request, PlayList, lock, delete_from_play_list}
use music_server_app.ClientDb.{Server, is_unregistered}
use music_server_app.ClientDb.Register.{
  check_and_delete_current_list, forget_client, deregister_client,
}
use music_server_app.ClientDb.Search.{check_and_delete_current_list-KeepsClients}
use music_server_app.ClientDb.Notify.{
  connect_to_client, Sync, connect_once, send_request, send_list, send_lists, with_lock,
  sync_client, run_send_all_update_to_client,
}
use music_server_app.ClientDb.Syncing.{others}

module _ (id : ℕ) (near : id < max_client) where
  -- A worker that holds the lock deregisters the client.
  deregister_client-deadlock :
      (s : Server)
      → is_unregistered (s.client_state id) ≡ false
      → s.pl.locked ≡ true
      → deregister_client s id ≡ fault deadlock
  unfolding deregister_client forget_client delete_from_play_list lock
  deregister_client-deadlock s there locked =
      let small : ge_max_client id ≡ false = ground arith in
      let is_locked : PlayList → Bool = λ pl. pl.locked in
      let still : (check_and_delete_current_list s id).pl.locked ≡ true =
        ap is_locked (check_and_delete_current_list-KeepsClients s id).same_list ∙ locked in
      rw (small, lt→ltb _ _ near) (simp (there, still) refl)

  send_request-deadlock :
      (y : Sync) (r : Request)
      → y.connected ≡ false
      → y.server.env.connects y.server.network_calls (y.server.client_ip id) ≡ false
      → is_unregistered (y.server.client_state id) ≡ false
      → y.server.pl.locked ≡ true
      → send_request y id r ≡ fault deadlock
  unfolding send_request connect_once connect_to_client
  send_request-deadlock y r fresh unreachable there locked =
      let s : Server = record y.server {
        token = (get_new_token y.server.token).1;
        network_calls = suc y.server.network_calls;
      } in
      let dead = deregister_client-deadlock s there locked in
      simp (fresh, lt→ltb _ _ near, unreachable, dead) refl

  abbrev IsCutOff : Sync → Type 0
  IsCutOff y =
      (y.connected ≡ false)
      × (y.server.env.connects y.server.network_calls (y.server.client_ip id) ≡ false)
      × (is_unregistered (y.server.client_state id) ≡ false)
      × (y.server.pl.locked ≡ true)

  send_list-deadlock :
      (y : Sync) (rs : List Request)
      → IsCutOff y
      → rs ≢ []
      → send_list (length rs) rs id y ≡ fault deadlock
  unfolding send_list
  send_list-deadlock y [] cut some_there = absurd (some_there refl)
  send_list-deadlock y (r ∷ rs) (fresh, unreachable, there, locked) some_there =
      rw (send_request-deadlock y r fresh unreachable there locked, ◌>>=◌) refl

  send_lists-deadlock :
      (k i : ℕ) (y : Sync)
      → IsCutOff y
      → ((j : ℕ) → j < max_client → IsCounted (y.server.pl.p_list j))
      → i + k < suc max_client
      → others k i id y.server.pl ≢ []
      → send_lists k i id y ≡ fault deadlock
  unfolding send_lists
  send_lists-deadlock zero i y cut counted within some_there = absurd (some_there refl)
  send_lists-deadlock (suc k) i y cut counted within some_there = elim (Bool-cases (i == id)) [
    | inl own ↦
        let later : others k (i + 1) id y.server.pl ≢ [] = rw own at some_there in
        rw (cut.2, own) (send_lists-deadlock k (i + 1) y cut counted (omega (arith, within)) later)
    | inr other ↦
        go (y.server.pl.p_list i).nodes refl (counted i (omega (arith, within))) other
          (rw other at some_there)
          (send_lists-deadlock k (i + 1) y cut counted (omega (arith, within)))
  ]
    where
      go :
          (nodes : List Request)
          → (y.server.pl.p_list i).nodes ≡ nodes
          → IsCounted (y.server.pl.p_list i)
          → (i == id) ≡ false
          → (y.server.pl.p_list i).nodes ++ others k (i + 1) id y.server.pl ≢ []
          → (others k (i + 1) id y.server.pl ≢ [] → send_lists k (i + 1) id y ≡ fault deadlock)
          → send_lists (suc k) i id y ≡ fault deadlock
      go [] is c other here later =
          let zero_there : ((y.server.pl.p_list i).total_node == 0) ≡ true =
            ground (arith, c, ap length is) in
          let further : others k (i + 1) id y.server.pl ≢ [] = rw is at here in
          rw (cut.2, other, zero_there) (later further)
      go (r ∷ rs) is c other here later =
          let some_nodes : (y.server.pl.p_list i).nodes ≢ [] =
            λ none_there. let both : r ∷ rs ≡ [] = sym is ∙ none_there in cc in
          let some_there : ((y.server.pl.p_list i).total_node == 0) ≡ false =
            ground (arith, c, ap length is) in
          rw
            (
              cut.2,
              other,
              some_there,
              c,
              send_list-deadlock y (y.server.pl.p_list i).nodes cut some_nodes,
              ◌>>=◌,
            )
            refl

-- Where the connection to a registered client fails while another client has requests,
-- `sendAllUpdateToClient` deregisters the client with the play list locked and waits for its own lock.
pub run_send_all_update_to_client_deadlock :
    (s : Server) (id : ℕ)
    → id < max_client
    → is_unregistered (s.client_state id) ≡ false
    → s.pl.locked ≡ false
    → s.pl.play_list_size ≢ 0
    → ((i : ℕ) → i < max_client → IsCounted (s.pl.p_list i))
    → others max_client 0 id s.pl ≢ []
    → s.env.connects s.network_calls (s.client_ip id) ≡ false
    → run_send_all_update_to_client s id ≡ fault deadlock
unfolding run_send_all_update_to_client sync_client lock
run_send_all_update_to_client_deadlock s id near there free size counted some_there unreachable =
    let small : ge_max_client id ≡ false = ground arith in
    let nonzero : (s.pl.play_list_size == 0) ≡ false = ground (arith, size) in
    let start : Sync = record { connected = false; sent = g_fail; server = with_lock true s } in
    let dead =
      send_lists-deadlock id near max_client 0 start (refl, unreachable, there, refl) counted
        (omega arith) some_there in
    rw (small, lt→ltb _ _ near) (simp (there, free, nonzero, dead) refl)
