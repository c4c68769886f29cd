-- ===== src/ResourceManager/Answers.antt =====
-- The answers of `sendACKandClose` and `sendNACKandClose` in MusicServer/src/serverRoutine.c to a
-- message that MusicServer/src/resourceManager.c serves.
use music_server_app.Base.{
  ℕ, suc, ◌+◌, ◌^◌, ◌<◌, ◌≡◌, refl, inl, inr, none, some, List, [], ◌∷◌, if◌then◌else◌, ◌==◌,
  Bool-cases, length,
}
use music_server_app.Base.Run.{ok, Returns, Returns-bind}
use music_server_app.Packet.{ClntData, header_size, res_ok_m, res_err_m}
use music_server_app.Packet.RoundTrip.{Carries, layout, encode_packet-layout}
use music_server_app.ClientDb.{Server, ClntMsg, handle_client, add_job_to_queue}
use music_server_app.ClientDb.Notify.{transmit}
use music_server_app.ServerRoutine.{
  Answered, freed, cleared, answer, with_msg_id, cleared_msg, send_ack_and_close,
  send_nack_and_close,
}
use music_server_app.ResourceManager.Requests.{nack}

-- What the payload of a decoded message is: its content, or nothing.
pub data Holds (msg : ClntData) (content : List ℕ) : Type 0 where
  nothing : content ≡ [] → msg.payload ≡ none → msg.payload_size ≡ 0 → Holds msg content
  bytes : msg.payload ≡ some content → msg.payload_size ≡ length content → Holds msg content

Holds-Carries : {msg : ClntData} {content : List ℕ} → Holds msg content → Carries msg content
Holds-Carries (Holds.nothing e p n) = Carries.empty e n
Holds-Carries (Holds.bytes p n) = Carries.full p n

-- The packet of an answer: the message itself, with another identifier and perhaps another client.
abbrev pub answer_packet : ClntMsg → List ℕ → (reply client : ℕ) → List ℕ
answer_packet msg content reply client =
    layout (record msg.clnt_data.header { msg_id = reply; clnt_id = client })
      (header_size + msg.clnt_data.payload_size) content

-- One transmission has been tried, to the client that sent the message; clients and requests are
-- those of `s1`.
pub record Replied (s1 : Server) (msg : ClntMsg) (content : List ℕ) (reply client : ℕ) (s' : Server)
    : Type 0 where
  pub one_call : s'.network_calls ≡ suc s1.network_calls
  pub goes_out : s'.outbox ≡ (
      if s1.env.sends s1.network_calls
      then (msg.cli_addr, answer_packet msg content reply client) ∷ s1.outbox
      else s1.outbox)
  pub same_cdb : s'.cdb ≡ s1.cdb
  pub same_pl : s'.pl ≡ s1.pl

-- What becomes of the message.
abbrev afterwards : ClntMsg → Server → Answered × Server
afterwards msg s =
    if msg.clnt_data.is_last == 1
    then (freed, s)
    else (cleared, add_job_to_queue s (handle_client (cleared_msg msg)))

module _ (msg : ClntMsg) (content : List ℕ) (c : Holds msg.clnt_data content)
    (fits : header_size + msg.clnt_data.payload_size < 2 ^ 32) where
  with_msg_id-Carries : (id : ℕ) → Carries (with_msg_id id msg.clnt_data) content
  with_msg_id-Carries id = elim c [
    | nothing e p n ↦ Carries.empty e n
    | bytes p n ↦ Carries.full p n
  ]

  answer_lem :
      (id : ℕ) (s : Server)
      → answer id s msg
        ≡ ok (
            afterwards msg
              (transmit s msg.cli_addr (answer_packet msg content id msg.clnt_data.clnt_id)).1)
  unfolding answer
  answer_lem id s = rw (
      encode_packet-layout s.env.order (with_msg_id id msg.clnt_data) content
        (with_msg_id-Carries id) fits)

  transmit-Replied :
      (reply client : ℕ) (s : Server)
      → Replied s msg content reply client
          (transmit s msg.cli_addr (answer_packet msg content reply client)).1
  unfolding transmit
  transmit-Replied reply client s = elim (Bool-cases (s.env.sends s.network_calls)) [
    | inl e ↦ rw e (record { one_call = refl; goes_out = rw e; same_cdb = refl; same_pl = refl })
    | inr e ↦ rw e (record { one_call = refl; goes_out = rw e; same_cdb = refl; same_pl = refl })
  ]

  afterwards-Replied :
      (s s1 : Server) (reply client : ℕ)
      → Replied s msg content reply client s1
      → Replied s msg content reply client (afterwards msg s1).1
  unfolding add_job_to_queue
  afterwards-Replied s s1 reply client r = elim (Bool-cases (msg.clnt_data.is_last == 1)) [
    | inl l ↦ rw l r
    | inr l ↦ rw l (record {
      one_call = r.one_call;
      goes_out = r.goes_out;
      same_cdb = r.same_cdb;
      same_pl = r.same_pl;
    })
  ]

  -- The message as `afterwards` says, and the server after the answer.
  abbrev pub Closed : (reply : ℕ) → Server → Answered × Server → Type 0
  Closed reply s (what, s') =
      Replied s msg content reply msg.clnt_data.clnt_id s'
      × (what ≡ (if msg.clnt_data.is_last == 1 then freed else cleared))

  afterwards_what :
      (s : Server) → (afterwards msg s).0 ≡ (if msg.clnt_data.is_last == 1 then freed else cleared)
  afterwards_what s = elim (Bool-cases (msg.clnt_data.is_last == 1)) [ inl l ↦ rw l | inr l ↦ rw l ]

  answer-Closed : (id : ℕ) (s : Server) → Returns (Closed id s) (answer id s msg)
  answer-Closed id s =
      let s1 : Server =
        (transmit s msg.cli_addr (answer_packet msg content id msg.clnt_data.clnt_id)).1 in
      rw (answer_lem id s) (
        afterwards-Replied s s1 id msg.clnt_data.clnt_id
            (transmit-Replied id msg.clnt_data.clnt_id s),
        afterwards_what s1,
      )

  pub send_ack_and_close-Closed :
      (s : Server) → Returns (Closed res_ok_m s) (send_ack_and_close s msg)
  unfolding send_ack_and_close
  send_ack_and_close-Closed s = answer-Closed res_ok_m s

  pub nack-Replied :
      (s : Server) → Returns (Replied s msg content res_err_m msg.clnt_data.clnt_id) (nack s msg)
  unfolding send_nack_and_close
  nack-Replied s =
      Returns-bind (Closed res_err_m s) _ (answer res_err_m s msg) _ (answer-Closed res_err_m s)
        (λ r v. v.0)
