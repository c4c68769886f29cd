-- ===== src/ServerRoutine.antt =====
-- MusicServer/src/serverRoutine.c: the worker routines that read a client's packet and answer it.
-- A client's stream is the list of the bytes that it still sends; `receiveData` gives fewer bytes
-- than asked for where that ends, or nothing on a timeout.
pub mod Framing
pub mod Connection
use music_server_app.Base.{
  ℕ, ◌+◌, ◌-◌, Bool, true, false, not, Option, none, some, List, [], ◌∷◌, Outcome, g_ok, g_fail,
  if◌then◌else◌, ltb, ◌==◌, u32_sub, length, take, drop, is_g_ok,
}
use music_server_app.Base.Run.{Run, ok, ◌>>=◌}
use music_server_app.Packet.{
  Header, ClntData, signature_byte, res_ok_m, res_err_m, encode_packet, decode_packet,
}
use music_server_app.Packet.Bytes.{ByteOrder, from_memory, ntohl}
use music_server_app.ClientDb.{Server, ClntMsg, handle_client, add_job_to_queue}
use music_server_app.ClientDb.Notify.{transmit}

-- What becomes of the message that was answered: freed with its connection closed, or set to zero
-- for the client's next packet.
pub data Answered : Type 0 where
  freed cleared : Answered

abbrev pub zero_header : Header
zero_header = record {
  total_size = 0;
  token = 0;
  msg_id = 0;
  clnt_id = 0;
  signature = 0;
  is_last = 0;
}

abbrev pub cleared_msg : ClntMsg → ClntMsg
cleared_msg msg = record msg {
  clnt_data = record { header = zero_header; payload = none; payload_size = 0 };
}

abbrev pub with_msg_id : ℕ → ClntData → ClntData
with_msg_id id msg = record msg { header = record msg.header { msg_id = id } }

-- The part that `sendACKandClose` and `sendNACKandClose` share.
unfoldable pub answer : ℕ → Server → ClntMsg → Run (Answered × Server)
answer id s msg = do
  (_, packet) ← encode_packet s.env.order (with_msg_id id msg.clnt_data)
  let (_, s') = transmit s msg.cli_addr packet
  ok (
      if msg.clnt_data.is_last == 1
      then (freed, s')
      else (cleared, add_job_to_queue s' (handle_client (cleared_msg msg))))

unfoldable pub send_ack_and_close : Server → ClntMsg → Run (Answered × Server)
unfolding answer
send_ack_and_close s msg = answer res_ok_m s msg

unfoldable pub send_nack_and_close : Server → ClntMsg → Run (Answered × Server)
unfolding answer
send_nack_and_close s msg = answer res_err_m s msg

-- `handleClient` closes the connection, or posts the message to the resource manager and leaves the
-- rest of the stream.
pub data Handled : Type 0 where
  closed : Handled
  posted : ClntMsg → List ℕ → Handled

-- Behind a header of five bytes. `malloc` gives the buffer.
unfoldable pub receive_body : ByteOrder → ClntMsg → ℕ → List ℕ → Run Handled
receive_body order msg size stream = if ltb (length stream) size then ok closed else (do
  (_, decoded) ← decode_packet order msg.clnt_data (some (take size stream)) size
  ok (posted (record msg { clnt_data = decoded }) (drop size stream)))

abbrev pub max_packet : ℕ
max_packet = 4096

-- Signature, then the total size in network order; `totSize - 5` wraps.
unfoldable pub receive_packet : ByteOrder → ClntMsg → List ℕ → Run Handled
receive_packet order msg (sig ∷ s0 ∷ s1 ∷ s2 ∷ s3 ∷ stream) =
    if not (sig == signature_byte)
    then ok closed
    else (let total = ntohl order (from_memory order s0 s1 s2 s3) in
        if ltb max_packet total then ok closed else receive_body order msg (u32_sub total 5) stream)
receive_packet order msg _ = ok closed
