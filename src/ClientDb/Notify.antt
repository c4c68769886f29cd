-- ===== src/ClientDb/Notify.antt =====
-- Messages to the clients of MusicServer/src/clientdb.c: `connectToClient`, `sendOneUpdate`,
-- `sendDeleteOneToClient`, `sendOneUpdateToAllClient`, `sendAllUpdateToClient`. A connection is an
-- entry of the environment's sequence of network calls, and so is a transmission.
use music_server_app.Base.{
  ℕ, zero, suc, ◌+◌, Bool, true, false, not, ◌&&◌, ◌||◌, some, List, [], ◌∷◌, Outcome, g_ok, g_fail,
  if◌then◌else◌, ◌==◌, ge_max_client, in_array, max_client, is_g_ok,
}
use music_server_app.Base.Run.{
  Run, ok, fault, null_deref, out_of_bounds, use_after_free, ◌>>=◌, ◌>>◌, require,
}
use music_server_app.Packet.{
  ClntData, encode_packet, client_delete_req_m, client_current_playing_m, client_update_all,
  get_new_token,
}
use music_server_app.PlayList.{Request, lock}
use music_server_app.ClientDb.{Server, is_unregistered, create_client_msg}
use music_server_app.ClientDb.Register.{deregister_client}

-- A client that cannot be reached is deregistered.
unfoldable pub connect_to_client : Server → ℕ → Run (Outcome × Server)
connect_to_client s id = do
  require (in_array id) out_of_bounds
  let s' = record s { network_calls = suc s.network_calls }
  if s.env.connects s.network_calls (s.client_ip id)
      then ok (g_ok, s')
      else (do (_, s'') ← deregister_client s' id; ok (g_fail, s''))

-- The packet goes out or is lost; the message is as `encodePacket` leaves it.
unfoldable pub transmit : Server → ℕ → List ℕ → Outcome × Server
transmit s ip packet =
    let s' = record s { network_calls = suc s.network_calls } in
    if s.env.sends s.network_calls
    then (g_ok, record s' { outbox = (ip, packet) ∷ s.outbox })
    else (g_fail, s')

unfoldable pub send_one_update : Server → ℕ → ClntData → Run (Outcome × ClntData × Server)
send_one_update s ip msg = do
  (msg', packet) ← encode_packet s.env.order msg
  let (res, s') = transmit s ip packet
  ok (res, msg', s')

-- After a transmission that fails, the message is freed twice.
unfoldable pub send_delete_one_to_client : Server → ℕ → ℕ → Run Server
send_delete_one_to_client s id m_token = do
  let msg = create_client_msg id m_token client_delete_req_m
  (connected, s') ← connect_to_client s id
  if is_g_ok connected
      then (do
        (sent, _, s'') ← send_one_update s' (s'.client_ip id) msg
        require (is_g_ok sent) use_after_free
        ok s'')
      else ok s'

-- Neither an unregistered client nor the one whom the message is about, unless it tells what plays.
abbrev pub is_skipped : Server → ℕ → ClntData → Bool
is_skipped s i msg =
    if is_unregistered (s.client_state i)
    then true
    else i == msg.clnt_id && not (msg.msg_id == client_current_playing_m)

-- A client that cannot be reached is deregistered once more, which then fails.
unfoldable pub send_to_client : Server → ℕ → ClntData → Run (ClntData × Server)
send_to_client s i msg = do
  (connected, s') ← connect_to_client s i
  if is_g_ok connected
      then (do (_, msg', s'') ← send_one_update s' (s'.client_ip i) msg; ok (msg', s''))
      else (do (_, s'') ← deregister_client s' i; ok (msg, s''))

-- One round of the loop over the clients.
unfoldable pub notify_client : Server → ℕ → ClntData → Run (ClntData × Server)
notify_client s i msg = if is_skipped s i msg then ok (msg, s) else send_to_client s i msg

-- The rounds left, the client, and the message as the last transmission left it.
unfoldable pub notify_clients : ℕ → ℕ → ClntData → Server → Run Server
notify_clients zero i msg s = ok s
notify_clients (suc rounds) i msg s = do
  (msg', s') ← notify_client s i msg
  notify_clients rounds (i + 1) msg' s'

unfoldable pub run_send_one_update_to_all_client : Server → ClntData → Run Server
unfolding notify_clients
run_send_one_update_to_all_client s msg = notify_clients max_client 0 msg s

-- The update that tells a client of a request. Its signature is never set.
unfoldable pub update_message : Server → ℕ → Request → ℕ → ClntData
update_message s id r token = record {
  header = record {
    total_size = 0;
    token = token;
    msg_id = client_update_all;
    clnt_id = id;
    signature = s.env.garbage;
    is_last = 0;
  };
  payload = some r.payload;
  payload_size = r.size;
}

-- Whether the client is connected, the result of the last transmission, and the server.
pub record Sync : Type 0 where
  pub connected : Bool
  pub sent : Outcome
  pub server : Server

-- A connection at the first need. The play list is locked here.
unfoldable pub connect_once : Sync → ℕ → Run (Outcome × Sync)
connect_once y id = if y.connected then ok (g_ok, y) else (do
  (res, s') ← connect_to_client y.server id
  ok (res, record y { connected = is_g_ok res; server = s' }))

unfoldable pub send_request : Sync → ℕ → Request → Run (Outcome × Sync)
send_request y id r = do
  let (token, fresh) = get_new_token y.server.token
  (res, y') ← connect_once (record y { server = record y.server { token = fresh } }) id
  if is_g_ok res
      then (do
        let msg = update_message y'.server id r token
        (sent, _, s') ← send_one_update y'.server (y'.server.client_ip id) msg
        ok (sent, record y' { sent = sent; server = s' }))
      else ok (res, y')

-- `totalNode` rounds from the first node on; past the last node the pointer is `NULL`.
unfoldable pub send_list : ℕ → List Request → ℕ → Sync → Run Sync
send_list zero rs id y = ok y
send_list (suc rounds) [] id y = fault null_deref
send_list (suc rounds) (r ∷ rs) id y = do
  (res, y') ← send_request y id r
  if is_g_ok res then send_list rounds rs id y' else ok y'

-- The lists of the other clients; the loop ends at the first list that was not sent.
unfoldable pub send_lists : ℕ → ℕ → ℕ → Sync → Run Sync
send_lists zero i id y = ok y
send_lists (suc rounds) i id y =
    if is_unregistered (y.server.client_state id) || i == id
    then send_lists rounds (i + 1) id y
    else if (y.server.pl.p_list i).total_node == 0
    then send_lists rounds (i + 1) id y
    else (do
      let l = y.server.pl.p_list i
      y' ← send_list l.total_node l.nodes id y
      if is_g_ok y'.sent then send_lists rounds (i + 1) id y' else ok y')

abbrev pub with_lock : Bool → Server → Server
with_lock b s = record s { pl = record s.pl { locked = b } }

unfoldable pub sync_client : Server → ℕ → Run Server
sync_client s id = do
  lock s.pl
  if s.pl.play_list_size == 0 then ok s else (do
    y ←
        send_lists max_client 0 id
          (record { connected = false; sent = g_fail; server = with_lock true s })
    ok (with_lock false y.server))

unfoldable pub run_send_all_update_to_client : Server → ℕ → Run Server
run_send_all_update_to_client s id = if ge_max_client id then ok s else do
  require (in_array id) out_of_bounds
  if is_unregistered (s.client_state id) then ok s else sync_client s id
