-- ===== src/ResourceManager/Effects.antt =====
-- What the messages that `servClientRequest` of MusicServer/src/resourceManager.c serves are to do.
use music_server_app.Base.{
  ℕ, ◌+◌, ◌^◌, ◌≤◌, ◌<◌, ◌≡◌, ◌≢◌, none, some, List, Outcome, is_g_ok, if◌then◌else◌, length,
  max_client,
}
use music_server_app.Base.Run.{ok}
use music_server_app.Packet.{
  header_size, register_m, add_m, deregister_m, delete_m, res_ok_m, res_err_m,
}
use music_server_app.ClientDb.{Server, ClntMsg}
use music_server_app.ClientDb.Registry.{IsRegistry, Deregistered}
use music_server_app.ClientDb.Admission.{Admitted, Refused}
use music_server_app.ClientDb.Queueing.{Queued}
use music_server_app.ClientDb.Unqueueing.{Unqueued}
use music_server_app.ClientDb.Quiet.{Quiet}
use music_server_app.ResourceManager.Requests.{read_token}
use music_server_app.ResourceManager.Answers.{Holds, Replied}

-- A message that `handleClient` posts, of a client number in range and from a real address.
pub record IsProper (msg : ClntMsg) (content : List ℕ) : Type 0 where
  pub holds : Holds msg.clnt_data content
  pub fits : header_size + msg.clnt_data.payload_size < 2 ^ 32
  pub client : msg.clnt_data.clnt_id < max_client
  pub address : msg.cli_addr ≢ 0
  pub deletion :
      msg.clnt_data.msg_id ≡ delete_m → (4 ≤ length content) × (msg.clnt_data.is_last ≢ 1)

module _ (s : Server) (msg : ClntMsg) where
  -- What a message has done to clients and requests before it is answered with `reply` for `client`.
  pub data Effect (s1 : Server) : (reply client : ℕ) → Type 0 where
    admitted :
        {i : ℕ}
        → msg.clnt_data.msg_id ≡ register_m
        → Admitted s msg.cli_addr s1 i
        → Effect s1 res_ok_m i
    no_name :
        msg.clnt_data.msg_id ≡ register_m
        → msg.clnt_data.payload_size ≡ 0
        → s1 ≡ s
        → Effect s1 res_err_m msg.clnt_data.clnt_id
    full_up :
        msg.clnt_data.msg_id ≡ register_m
        → Refused s msg.cli_addr s1
        → Effect s1 res_err_m msg.clnt_data.clnt_id
    no_content :
        msg.clnt_data.msg_id ≡ add_m
        → msg.clnt_data.payload ≡ none
        → s1 ≡ s
        → Effect s1 res_err_m msg.clnt_data.clnt_id
    added :
        {content : List ℕ} {res : Outcome}
        → msg.clnt_data.msg_id ≡ add_m
        → msg.clnt_data.payload ≡ some content
        → Queued s msg.clnt_data.clnt_id msg.clnt_data.token content s1 res
        → Effect s1 (if is_g_ok res then res_ok_m else res_err_m) msg.clnt_data.clnt_id
    left :
        {res : Outcome}
        → msg.clnt_data.msg_id ≡ deregister_m
        → Deregistered s msg.clnt_data.clnt_id s1 res
        → Effect s1 (if is_g_ok res then res_ok_m else res_err_m) msg.clnt_data.clnt_id
    taken_back :
        {token : ℕ} {res : Outcome}
        → msg.clnt_data.msg_id ≡ delete_m
        → read_token s.env.order msg.clnt_data.payload ≡ ok token
        → Unqueued s msg.clnt_data.clnt_id token s1 res
        → Effect s1 (if is_g_ok res then res_ok_m else res_err_m) msg.clnt_data.clnt_id
    unknown_message :
        msg.clnt_data.msg_id ≢ register_m
        → msg.clnt_data.msg_id ≢ add_m
        → msg.clnt_data.msg_id ≢ deregister_m
        → msg.clnt_data.msg_id ≢ delete_m
        → s1 ≡ s
        → Effect s1 res_err_m msg.clnt_data.clnt_id

  -- The message has had its effect, and then one answer has been tried.
  pub record Served (content : List ℕ) (s' : Server) : Type 0 where
    pub before : Server
    pub reply : ℕ
    pub client : ℕ
    pub effect : Effect before reply client
    pub quiet : Quiet s before
    pub replied : Replied before msg content reply client s'
    pub registry : IsRegistry s'

  -- The message's own work, with the network untouched and the registry in order.
  abbrev pub Works : (reply client : ℕ) → Server → Type 0
  Works reply client s1 = Effect s1 reply client × Quiet s s1 × IsRegistry s1

pub Replied-IsRegistry :
    {s1 s' : Server} {msg : ClntMsg} {content : List ℕ} {reply client : ℕ}
    → Replied s1 msg content reply client s'
    → IsRegistry s1
    → IsRegistry s'
Replied-IsRegistry p r = record {
  sound = rw p.same_pl r.sound;
  vacant = rw p.same_cdb r.vacant;
  distinct = rw p.same_cdb r.distinct;
}
