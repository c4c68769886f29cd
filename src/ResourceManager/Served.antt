-- ===== src/ResourceManager/Served.antt =====
-- `servClientRequest` of MusicServer/src/resourceManager.c as a whole: what each message does, and its
-- answer.
use music_server_app.Base.{
  ℕ, ◌≤◌, ◌≡◌, ◌≢◌, ◌∙◌, refl, ap, inl, inr, false, some, List, [], ◌∷◌, arith, Outcome, g_ok,
  g_err, g_fail, is_g_ok, if◌then◌else◌, ◌==◌, Bool-cases, length,
}
use music_server_app.Base.Run.{ok, ◌>>=◌, Returns, Returns-bind, Returns-Ensures}
use music_server_app.Packet.{register_m, add_m, deregister_m, delete_m, res_ok_m, res_err_m}
use music_server_app.Packet.Bytes.{ByteOrder}
use music_server_app.ClientDb.{Server, ClntMsg, Job, add_job_to_queue}
use music_server_app.ClientDb.Register.{deregister_client, add_to_client_queue}
use music_server_app.ClientDb.Registry.{IsRegistry, Deregistered, deregister_client-IsRegistry}
use music_server_app.ClientDb.Queueing.{Queued, add_to_client_queue-Queued}
use music_server_app.ClientDb.Unqueueing.{Unqueued, delete_from_queue-Unqueued}
use music_server_app.ClientDb.Slots.{delete_from_queue}
use music_server_app.ClientDb.Quiet.{
  Quiet, deregister_client-Quiet, add_to_client_queue-Quiet, delete_from_queue-Quiet,
}
use music_server_app.ServerRoutine.{Answered, freed, cleared, send_ack_and_close}
use music_server_app.ResourceManager.Requests.{
  nack, serve_add, serve_deregister, read_token, tell_deleted, serve_delete, serv_client_request,
}
use music_server_app.ResourceManager.Answers.{nothing, bytes}
use music_server_app.ResourceManager.Effects.{
  IsProper, no_content, added, left, taken_back, unknown_message, Served, Works,
}
use music_server_app.ResourceManager.Registered.{
  nack-Served, ack_what-Served, ack-Served, add_job-Served, serve_register-Served,
}

read_token-ok :
    (order : ByteOrder) (content : List ℕ)
    → 4 ≤ length content
    → (token : ℕ) × (read_token order (some content) ≡ ok token)
unfolding read_token
read_token-ok order (a ∷ b ∷ c ∷ d ∷ rest) h = (_, refl)
read_token-ok order (a ∷ b ∷ c ∷ []) h = absurd (omega arith)
read_token-ok order (a ∷ b ∷ []) h = absurd (omega arith)
read_token-ok order (a ∷ []) h = absurd (omega arith)
read_token-ok order [] h = absurd (omega arith)

module _ {s : Server} (r : IsRegistry s) (msg : ClntMsg) (content : List ℕ)
    (p : IsProper msg content) where
  abbrev reply_of : Outcome → ℕ
  reply_of res = if is_g_ok res then res_ok_m else res_err_m

  finish-Served :
      (res : Outcome) (s1 : Server)
      → Works s msg (reply_of res) msg.clnt_data.clnt_id s1
      → Returns
          (Served s msg content)
          (if is_g_ok res then (do (_, s'') ← send_ack_and_close s1 msg; ok s'') else nack s1 msg)
  finish-Served g_ok s1 w =
      Returns-bind (λ (what, s'). Served s msg content s') _ (send_ack_and_close s1 msg) _
        (ack-Served r msg content p s1 w) (λ r v. v)
  finish-Served g_err s1 w = nack-Served r msg content p s1 w
  finish-Served g_fail s1 w = nack-Served r msg content p s1 w

  serve_deregister-Served :
      msg.clnt_data.msg_id ≡ deregister_m → Returns (Served s msg content) (serve_deregister s msg)
  unfolding serve_deregister
  serve_deregister-Served e =
      let id : ℕ = msg.clnt_data.clnt_id in
      Returns-bind (λ (res, s1). (IsRegistry s1 × Deregistered s id s1 res) × Quiet s s1) _
        (deregister_client s id) _
        (Returns-Ensures (λ (res, s1). IsRegistry s1 × Deregistered s id s1 res)
          (λ (res, s1). Quiet s s1) (deregister_client s id)
          (deregister_client-IsRegistry r id p.client) (deregister_client-Quiet s id))
        λ (res, s1) ((r1, d), q). finish-Served res s1 (left e d, q, r1)

  add_finish-Served :
      (res : Outcome) (s1 : Server) (job : Job)
      → Works s msg (reply_of res) msg.clnt_data.clnt_id s1
      → Returns (Served s msg content) (
          if is_g_ok res
          then (do (_, s'') ← send_ack_and_close s1 msg; ok (add_job_to_queue s'' job))
          else nack s1 msg)
  add_finish-Served g_ok s1 job w =
      Returns-bind (λ (what, s'). Served s msg content s') _ (send_ack_and_close s1 msg) _
        (ack-Served r msg content p s1 w) (λ (what, s') v. add_job-Served r msg content p s' job v)
  add_finish-Served g_err s1 job w = nack-Served r msg content p s1 w
  add_finish-Served g_fail s1 job w = nack-Served r msg content p s1 w

  serve_add-Served : msg.clnt_data.msg_id ≡ add_m → Returns (Served s msg content) (serve_add s msg)
  unfolding serve_add
  serve_add-Served e = elim p.holds [
    | nothing _ none_there size ↦
        simp (none_there, serve_add)
          (nack-Served r msg content p s (no_content e none_there refl, (refl, refl, refl), r))
    | bytes there size ↦
        let id : ℕ = msg.clnt_data.clnt_id in
        let tok : ℕ = msg.clnt_data.token in
        simp (there, size, serve_add)
          (Returns-bind (λ (res, s1). (IsRegistry s1 × Queued s id tok content s1 res) × Quiet s s1)
            _ (add_to_client_queue s id tok content (length content)) _
            (Returns-Ensures (λ (res, s1). IsRegistry s1 × Queued s id tok content s1 res)
              (λ (res, s1). Quiet s s1) (add_to_client_queue s id tok content (length content))
              (add_to_client_queue-Queued r id tok p.client content)
              (add_to_client_queue-Quiet s id tok content (length content)))
            λ (res, s1) ((r1, d), q). add_finish-Served res s1 _ (added e there d, q, r1))
  ]

  delete_finish-Served :
      (res : Outcome) (s1 : Server) (token : ℕ)
      → msg.clnt_data.is_last ≢ 1
      → Works s msg (reply_of res) msg.clnt_data.clnt_id s1
      → Returns
          (Served s msg content)
          (if is_g_ok res then (send_ack_and_close s1 msg >>= tell_deleted token) else nack s1 msg)
  unfolding tell_deleted
  delete_finish-Served g_ok s1 token more w =
      Returns-bind
        (λ (what, s').
          Served s msg content s'
          × (what ≡ (if msg.clnt_data.is_last == 1 then freed else cleared)))
        _ (send_ack_and_close s1 msg) _ (ack_what-Served r msg content p s1 w) told
    where
      told :
          (a : Answered × Server)
          → Served s msg content a.1
            × (a.0 ≡ (if msg.clnt_data.is_last == 1 then freed else cleared))
          → Returns (Served s msg content) (tell_deleted token a)
      told (freed, s') (v, what) =
          let not_last : (msg.clnt_data.is_last == 1) ≡ false = ground arith in
          let bad = rw not_last at what in cc
      told (cleared, s') (v, what) = add_job-Served r msg content p s' _ v
  delete_finish-Served g_err s1 token more w = nack-Served r msg content p s1 w
  delete_finish-Served g_fail s1 token more w = nack-Served r msg content p s1 w

  serve_delete-Served :
      msg.clnt_data.msg_id ≡ delete_m → Returns (Served s msg content) (serve_delete s msg)
  unfolding serve_delete
  serve_delete-Served e = elim p.holds [
    | nothing none_there _ _ ↦ absurd (omega (arith, (p.deletion e).0, ap length none_there))
    | bytes there size ↦
        let id : ℕ = msg.clnt_data.clnt_id in
        let (token, reads) = read_token-ok s.env.order content (p.deletion e).0 in
        let read : read_token s.env.order msg.clnt_data.payload ≡ ok token =
          ap (read_token s.env.order) there ∙ reads in
        simp (read, serve_delete)
          (Returns-bind (λ (res, s1). (IsRegistry s1 × Unqueued s id token s1 res) × Quiet s s1) _
            (delete_from_queue s id token) _
            (Returns-Ensures (λ (res, s1). IsRegistry s1 × Unqueued s id token s1 res)
              (λ (res, s1). Quiet s s1) (delete_from_queue s id token)
              (delete_from_queue-Unqueued r id token p.client) (delete_from_queue-Quiet s id token))
            λ (res, s1) ((r1, d), q).
              delete_finish-Served res s1 token (p.deletion e).1 (taken_back e read d, q, r1))
  ]

  -- Every proper message is served to its end, whoever sent it: it has the effect that `Effect` says,
  -- of the operation that its identifier names, and then exactly one answer is tried, to the client
  -- that sent it, `resOk_m` after a success and `resErr_m` otherwise. Addresses stay distinct and the
  -- play list stays sound. A deletion is proper where it is not the client's last message.
  pub serv_client_request-Served : Returns (Served s msg content) (serv_client_request s msg)
  unfolding serv_client_request
  serv_client_request-Served =
      let id : ℕ = msg.clnt_data.msg_id in
      elim (Bool-cases (id == register_m)) [
        | inl e ↦ simp e (serve_register-Served r msg content p (ground arith))
        | inr not_register ↦ simp not_register (elim (Bool-cases (id == add_m)) [
          | inl e ↦ simp e (serve_add-Served (ground arith))
          | inr not_add ↦ simp not_add (elim (Bool-cases (id == deregister_m)) [
            | inl e ↦ simp e (serve_deregister-Served (ground arith))
            | inr not_deregister ↦ simp not_deregister (elim (Bool-cases (id == delete_m)) [
              | inl e ↦ simp e (serve_delete-Served (ground arith))
              | inr not_delete ↦ simp not_delete (
                  nack-Served r msg content p s (
                    unknown_message (ground arith) (ground arith) (ground arith) (ground arith)
                        refl,
                    (refl, refl, refl),
                    r,
                  ))
            ])
          ])
        ])
      ]
