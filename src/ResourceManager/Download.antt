-- ===== src/ResourceManager/Download.antt =====
-- `getMP3FileFromClient` of MusicServer/src/serverRoutine.c, which posts its message to the manager.
-- `writes` and `reads` are the rounds of the socket while it is written and while it is read. The
-- call is made with a request, never with `NULL`.
use music_server_app.Base.{
  ℕ, zero, suc, ◌-◌, ◌*◌, Bool, true, false, Option, none, some, List, [], ◌∷◌, ◌++◌, ◌||◌,
  if◌then◌else◌, leb, ltb, ◌==◌, length, take, drop,
}
use music_server_app.Base.Run.{Run, ok, fault, out_of_bounds, out_of_fuel, ◌>>=◌}
use music_server_app.Packet.{ClntData, encode_packet, get_file_m, signature_byte}
use music_server_app.Packet.Bytes.{from_memory, ntohl}
use music_server_app.ClientDb.{Server, Mp3FileReq}
use music_server_app.ClientDb.Register.{deregister_client}
use music_server_app.Socket.{Event, Moved, send_data, receive_data}
use music_server_app.ResourceManager.{RManager, dw_complete, dw_err}
use music_server_app.ResourceManager.Machine.{with_server, post_msg_to_rm}

-- The manager with the message in its queue, what the client was sent, and what the file holds.
pub record Fetch : Type 0 where
  pub manager : RManager
  pub request : List ℕ
  pub file : Option (List ℕ)

abbrev pub failed : RManager → Mp3FileReq → List ℕ → Option (List ℕ) → Fetch
failed rm req sent file = record {
  manager = post_msg_to_rm rm (dw_err req);
  request = sent;
  file = file;
}

abbrev pub file_request : Mp3FileReq → ClntData
file_request req = record {
  header = record {
    total_size = 0;
    token = req.request_id;
    msg_id = get_file_m;
    clnt_id = req.clnt_id;
    signature = signature_byte;
    is_last = 1;
  };
  payload = none;
  payload_size = 0;
}

abbrev pub max_file : ℕ
max_file = 20 * 1024 * 1024

-- `currentRead`
unfoldable pub current_read : ℕ → ℕ → ℕ
current_read file_size total = if leb 4096 (file_size - total) then 4096 else file_size - total

-- `tempRead` is `currentRead`.
unfoldable pub is_complete : Moved → ℕ → Bool
is_complete m wanted = m.answer == wanted

-- The rounds of the download loop with what has been given to `write` so far: whether all of it has
-- come. The result of `write` is not looked at.
unfoldable pub download_loop : ℕ → List Event → ℕ → List ℕ → Run (Bool × List ℕ)
download_loop zero es file_size got =
    if ltb (length got) file_size then fault out_of_fuel else ok (true, got)
download_loop (suc n) es file_size got = elim (ltb (length got) file_size) [
  | false ↦ ok (true, got)
  | true ↦ receive_data es (current_read file_size (length got)) >>= λ m.
      elim (is_complete m (current_read file_size (length got))) [
        | false ↦ ok (false, got)
        | true ↦ download_loop n m.rest file_size (got ++ take m.answer m.bytes)
      ]
]

-- A file that exists is opened with what it holds: `open` does not truncate it.
abbrev pub overwrite : List ℕ → List ℕ → List ℕ
overwrite old new = new ++ drop (length new) old

-- Behind a file size in range. Each round of the loop writes a byte at least.
unfoldable pub download_file :
    RManager → Mp3FileReq → List ℕ → Option (List ℕ) → List Event → ℕ → Run Fetch
download_file rm req sent none es file_size = ok (failed rm req sent none)
download_file rm req sent (some old) es file_size = do
  (complete, got) ← download_loop file_size es file_size []
  ok (
      if complete
      then record {
        manager = post_msg_to_rm rm (dw_complete req);
        request = sent;
        file = some (overwrite old (rm.server.env.stores got));
      }
      else failed rm req sent (some (overwrite old (rm.server.env.stores got))))

-- The four bytes of `fileSize`.
unfoldable pub read_size :
    RManager → Mp3FileReq → List ℕ → Option (List ℕ) → List ℕ → List Event → Run Fetch
read_size rm req sent opened (b0 ∷ b1 ∷ b2 ∷ b3 ∷ _) es =
    let file_size = ntohl rm.server.env.order (from_memory rm.server.env.order b0 b1 b2 b3) in
    if file_size == 0 || ltb max_file file_size
    then ok (failed rm req sent none)
    else download_file rm req sent opened es file_size
read_size rm req sent opened _ es = fault out_of_bounds

unfoldable pub ask_client :
    RManager → Mp3FileReq → Option (List ℕ) → List Event → List Event → Run Fetch
ask_client rm req opened writes reads = do
  (_, packet) ← encode_packet rm.server.env.order (file_request req)
  sent ← send_data writes packet
  if ltb sent.answer (length packet) then ok (failed rm req sent.bytes none) else (do
    m ← receive_data reads 4
    if ltb m.answer 4
        then ok (failed rm req sent.bytes none)
        else read_size rm req sent.bytes opened m.bytes m.rest)

unfoldable pub get_mp3_file_from_client :
    RManager → Mp3FileReq → Option (List ℕ) → List Event → List Event → Run Fetch
get_mp3_file_from_client rm req opened writes reads =
    let s : Server = rm.server in
    let s' : Server = record s { network_calls = suc s.network_calls } in
    if s.env.connects s.network_calls req.ipaddress
    then ask_client (with_server rm s') req opened writes reads
    else (do
      (_, s'') ← deregister_client s' req.clnt_id
      ok (failed (with_server rm s'') req [] none))
