-- ===== src/ResourceManager/Requests.antt =====
-- `servClientRequest` of MusicServer/src/resourceManager.c: what a client's message does.
use music_server_app.Base.{
  ℕ, not, Option, none, some, List, ◌∷◌, if◌then◌else◌, ltb, ◌==◌, length, take, is_g_ok,
  max_client_name,
}
use music_server_app.Base.Run.{
  Run, ok, fault, null_deref, out_of_bounds, use_after_free, ◌>>=◌, ◌>>◌, require,
}
use music_server_app.Packet.{
  ClntData, register_m, deregister_m, add_m, delete_m, res_ok_m, client_delete_req_m,
}
use music_server_app.Packet.Bytes.{ByteOrder, from_memory, ntohl}
use music_server_app.ClientDb.{
  Server, ClntMsg, send_one_update_to_all_client, send_all_update_to_client, add_job_to_queue,
  create_client_msg,
}
use music_server_app.ClientDb.Register.{register_client, deregister_client, add_to_client_queue}
use music_server_app.ClientDb.Slots.{delete_from_queue}
use music_server_app.ServerRoutine.{
  Answered, freed, cleared, send_ack_and_close, send_nack_and_close, with_msg_id,
}

-- An answer after which the message is not looked at again.
abbrev pub nack : Server → ClntMsg → Run Server
nack s msg = send_nack_and_close s msg >>= λ r. ok r.1

-- `clntInfo.clientName`, zeros behind the bytes left out: at most 128 bytes, or 127 of a longer name.
unfoldable pub client_name_of : List ℕ → ℕ → Run (List ℕ)
client_name_of bytes size = do
  require (not (ltb (length bytes) size)) out_of_bounds
  ok (if ltb max_client_name size then take 127 bytes else take size bytes)

abbrev pub with_clnt_id : ℕ → ClntMsg → ClntMsg
with_clnt_id id msg = record msg {
  clnt_data = record msg.clnt_data { header = record msg.clnt_data.header { clnt_id = id } };
}

unfoldable pub register_named : Server → ClntMsg → List ℕ → Run Server
register_named s msg name = do
  (res, s') ← register_client s name msg.cli_addr
  elim res [
    | none ↦ nack s' msg
    | some id ↦ do
      (_, s'') ← send_ack_and_close s' (with_clnt_id id msg)
      ok (add_job_to_queue s'' (send_all_update_to_client id))
  ]

unfoldable pub serve_register : Server → ClntMsg → Run Server
serve_register s msg =
    if msg.clnt_data.payload_size == 0 then nack s msg else (elim msg.clnt_data.payload [
      | none ↦ nack s msg
      | some bytes ↦ client_name_of bytes msg.clnt_data.payload_size >>= register_named s msg
    ])

-- The copy that goes to all clients: `memcpy` overwrites the `msgId` that was just set by that of
-- the request, which is the answer's by then.
unfoldable pub add_copy : ClntData → List ℕ → ClntData
add_copy request bytes = record (with_msg_id res_ok_m request) {
  payload = some (take request.payload_size bytes);
}

unfoldable pub serve_add : Server → ClntMsg → Run Server
serve_add s msg = elim msg.clnt_data.payload [
  | none ↦ nack s msg
  | some bytes ↦ do
    let d = msg.clnt_data
    (res, s') ← add_to_client_queue s d.clnt_id d.token bytes d.payload_size
    if is_g_ok res
        then (do
          (_, s'') ← send_ack_and_close s' msg
          ok (add_job_to_queue s'' (send_one_update_to_all_client (add_copy d bytes))))
        else nack s' msg
]

unfoldable pub serve_deregister : Server → ClntMsg → Run Server
serve_deregister s msg = do
  (res, s') ← deregister_client s msg.clnt_data.clnt_id
  if is_g_ok res then (do (_, s'') ← send_ack_and_close s' msg; ok s'') else nack s' msg

-- `ntohl` of the four bytes that the payload begins with.
unfoldable pub read_token : ByteOrder → Option (List ℕ) → Run ℕ
read_token order none = fault null_deref
read_token order (some (t0 ∷ t1 ∷ t2 ∷ t3 ∷ rest)) =
    ok (ntohl order (from_memory order t0 t1 t2 t3))
read_token order (some _) = fault out_of_bounds

-- The client's number is read once more from the message, after the answer has freed or cleared it.
-- Where it was cleared, no worker has received the client's next packet into it in between.
unfoldable pub tell_deleted : ℕ → Answered × Server → Run Server
tell_deleted token (freed, s) = fault use_after_free
tell_deleted token (cleared, s) = ok (
    add_job_to_queue s
      (send_one_update_to_all_client (create_client_msg 0 token client_delete_req_m)))

unfoldable pub serve_delete : Server → ClntMsg → Run Server
serve_delete s msg = do
  token ← read_token s.env.order msg.clnt_data.payload
  (res, s') ← delete_from_queue s msg.clnt_data.clnt_id token
  if is_g_ok res then (send_ack_and_close s' msg >>= tell_deleted token) else nack s' msg

unfoldable pub serv_client_request : Server → ClntMsg → Run Server
serv_client_request s msg =
    let id = msg.clnt_data.msg_id in
    if id == register_m
    then serve_register s msg
    else if id == add_m
    then serve_add s msg
    else if id == deregister_m
    then serve_deregister s msg
    else if id == delete_m
    then serve_delete s msg
    else nack s msg
