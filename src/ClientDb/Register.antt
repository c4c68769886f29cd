-- ===== src/ClientDb/Register.antt =====
-- Registration of MusicServer/src/clientdb.c: `registerClientFunc`, `deregisterClientFunc`,
-- `checkAndDeleteCurrentList`, `addToClientQueueFunc`, `getClientIpAddressFunc`,
-- `setClientStateActive`.
use music_server_app.Base.{
  ℕ, ◌+◌, ◌-◌, not, ◌&&◌, Option, none, some, List, [], ◌∷◌, Outcome, g_ok, g_fail, if◌then◌else◌,
  ltb, ◌==◌, ge_max_client, in_array, max_client, max_client_name, update, get_elem?, length, take,
}
use music_server_app.Base.Run.{Run, ok, out_of_bounds, ◌>>=◌, ◌>>◌, require}
use music_server_app.Packet.{client_delete_all_data_id_m}
use music_server_app.PlayList.{PlState, delete_from_play_list, add_to_play_list}
use music_server_app.ClientDb.{
  Server, unregistered, registered, active, is_unregistered, add_job_to_queue, unlink,
  set_scheduled, set_client_state, name_start, clear_name, find_client, create_client_msg,
  send_one_update_to_all_client,
}

-- What deregistration does with one position of `schData` that is the client's: a song that plays is
-- stopped, a file that is ready is dropped.
unfoldable pub give_up_scheduled : Server → ℕ → PlState → Server
give_up_scheduled s i PlState.playing = record s { stop = 1 }
give_up_scheduled s i PlState.ready =
    unlink (set_scheduled s i (record (s.sch_data i) { status = PlState.unset }))
      (s.sch_data i).file_name
give_up_scheduled s i _ = s

unfoldable pub give_up_position : Server → ℕ → ℕ → Server
unfolding give_up_scheduled
give_up_position s id i =
    if (s.sch_data i).client_id == id then give_up_scheduled s i (s.sch_data i).status else s

unfoldable pub check_and_delete_current_list : Server → ℕ → Server
check_and_delete_current_list s id = give_up_position (give_up_position s id 0) id 1

-- The rest of `deregisterClientFunc`, for a registered client.
unfoldable pub forget_client : Server → ℕ → Run Server
forget_client s id = do
  let s' = check_and_delete_current_list s id
  (_, pl') ← delete_from_play_list s'.pl id
  let cdb' = record s'.cdb {
    client_name = clear_name s'.client_name id;
    client_ip = update s'.client_ip id 0;
    client_state = update s'.client_state id unregistered;
  }
  let msg = create_client_msg id 0 client_delete_all_data_id_m
  ok (add_job_to_queue (record s' { cdb = cdb'; pl = pl' }) (send_one_update_to_all_client msg))

unfoldable pub deregister_client : Server → ℕ → Run (Outcome × Server)
deregister_client s id = if ge_max_client id then ok (g_fail, s) else do
  require (in_array id) out_of_bounds
  if is_unregistered (s.client_state id)
      then ok (g_fail, s)
      else (do s' ← forget_client s id; ok (g_ok, s'))

-- The bytes of a C string, up to its terminator.
unfoldable pub until_nul : List ℕ → List ℕ
until_nul [] = []
until_nul (b ∷ bs) = let rest = until_nul bs in if b == 0 then [] else b ∷ rest

abbrev pub byte_or_nul : Option ℕ → ℕ
byte_or_nul none = 0
byte_or_nul (some b) = b

-- `strncpy(cdb->clientName[i], name, MAX_CLIENT_NAME)` pads with zeros.
unfoldable pub write_name : (ℕ → ℕ) → ℕ → List ℕ → ℕ → ℕ
unfolding until_nul
write_name names i name a =
    if not (ltb a (name_start i)) && ltb a (name_start i + max_client_name)
    then byte_or_nul (get_elem? (until_nul name) (a - name_start i))
    else names a

-- A client that connects again from its address is deregistered first.
unfoldable pub drop_old_session : Server → ℕ → Run Server
drop_old_session s ip =
    let old = find_client (λ i. s.client_ip i == ip) in
    if ltb old max_client then (do (_, s') ← deregister_client s old; ok s') else ok s

unfoldable pub enter_client : Server → ℕ → List ℕ → ℕ → Server
enter_client s i name ip = record s {
  cdb = record s.cdb {
    client_id = update s.client_id i i;
    client_name = write_name s.client_name i name;
    client_ip = update s.client_ip i ip;
    client_state = update s.client_state i registered;
  };
}

-- The client's new number, or `none` for `G_FAIL`.
unfoldable pub take_free_place : Server → List ℕ → ℕ → Option ℕ × Server
take_free_place s name ip =
    let i = find_client (λ i. is_unregistered (s.client_state i)) in
    if ltb i max_client then (some i, enter_client s i name ip) else (none, s)

unfoldable pub register_client : Server → List ℕ → ℕ → Run (Option ℕ × Server)
register_client s name ip = do s' ← drop_old_session s ip; ok (take_free_place s' name ip)

-- `size` bytes of `msg` are copied; a play list that is full, or an unknown client, refuses. The
-- refusal's log line reads `clientState[id]`, also where `id` is too large. The caller has seen that
-- `msg` is not `NULL`.
unfoldable pub add_to_client_queue : Server → ℕ → ℕ → List ℕ → ℕ → Run (Outcome × Server)
add_to_client_queue s id token msg size = do
  require (in_array id) out_of_bounds
  if is_unregistered (s.client_state id) then ok (g_fail, s) else (do
    require (not (ltb (length msg) size)) out_of_bounds
    (res, pl') ← add_to_play_list s.pl id token (take size msg) size
    ok (res, record s { pl = pl' }))

-- The address, or `none` for `G_FAIL`.
unfoldable pub get_client_ip_address : Server → ℕ → Run (Option ℕ)
get_client_ip_address s id = if ge_max_client id then ok none else do
  require (in_array id) out_of_bounds
  ok (
      if is_unregistered (s.client_state id)
      then none
      else if s.client_ip id == 0
      then none
      else some (s.client_ip id))

unfoldable pub set_client_state_active : Server → ℕ → Run (Outcome × Server)
set_client_state_active s id = if ge_max_client id then ok (g_fail, s) else do
  require (in_array id) out_of_bounds
  ok (
      if is_unregistered (s.client_state id)
      then (g_fail, s)
      else (g_ok, set_client_state s id active))
