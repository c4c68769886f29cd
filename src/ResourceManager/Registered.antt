-- ===== src/ResourceManager/Registered.antt =====
-- The answers of `servClientRequest` in MusicServer/src/resourceManager.c, and its `register_m` branch.
use music_server_app.Base.{
  ℕ, ◌≡◌, refl, inl, inr, false, Option, none, some, List, arith, if◌then◌else◌, ltb, ◌==◌,
  Bool-cases, length,
}
use music_server_app.Base.Run.{ok, ◌>>=◌, Returns, Returns-bind, Returns-mono, Returns-Ensures}
use music_server_app.Packet.{register_m, res_ok_m, res_err_m}
use music_server_app.ClientDb.{Server, ClntMsg, Job, send_all_update_to_client, add_job_to_queue}
use music_server_app.ClientDb.Register.{register_client}
use music_server_app.ClientDb.Registry.{IsRegistry}
use music_server_app.ClientDb.Admission.{Admitted, Registration, register_client-Registration}
use music_server_app.ClientDb.Quiet.{Quiet, register_client-Quiet}
use music_server_app.ServerRoutine.{freed, cleared, send_ack_and_close}
use music_server_app.ResourceManager.Requests.{
  nack, with_clnt_id, client_name_of, register_named, serve_register,
}
use music_server_app.ResourceManager.Answers.{
  Holds, nothing, bytes, Replied, Closed, send_ack_and_close-Closed, nack-Replied,
}
use music_server_app.ResourceManager.Effects.{
  IsProper, admitted, no_name, full_up, Served, Works, Replied-IsRegistry,
}

module _ {s : Server} (r : IsRegistry s) (msg : ClntMsg) (content : List ℕ)
    (p : IsProper msg content) where
  pub nack-Served :
      (s1 : Server)
      → Works s msg res_err_m msg.clnt_data.clnt_id s1
      → Returns (Served s msg content) (nack s1 msg)
  nack-Served s1 w =
      Returns-mono (Replied s1 msg content res_err_m msg.clnt_data.clnt_id) _ _
        (nack-Replied msg content p.holds p.fits s1)
        λ s' a. record {
          before = s1;
          reply = res_err_m;
          client = msg.clnt_data.clnt_id;
          effect = w.0;
          quiet = w.1;
          replied = a;
          registry = Replied-IsRegistry a w.2;
        }

  pub ack_what-Served :
      (s1 : Server)
      → Works s msg res_ok_m msg.clnt_data.clnt_id s1
      → Returns
          (λ (what, s').
            Served s msg content s'
            × (what ≡ (if msg.clnt_data.is_last == 1 then freed else cleared)))
          (send_ack_and_close s1 msg)
  ack_what-Served s1 w =
      Returns-mono (Closed msg content p.holds p.fits res_ok_m s1) _ _
        (send_ack_and_close-Closed msg content p.holds p.fits s1)
        λ (what, s') a. (
          record {
            before = s1;
            reply = res_ok_m;
            client = msg.clnt_data.clnt_id;
            effect = w.0;
            quiet = w.1;
            replied = a.0;
            registry = Replied-IsRegistry a.0 w.2;
          },
          a.1,
        )

  pub ack-Served :
      (s1 : Server)
      → Works s msg res_ok_m msg.clnt_data.clnt_id s1
      → Returns (λ (what, s'). Served s msg content s') (send_ack_and_close s1 msg)
  ack-Served s1 w =
      Returns-mono
        (λ (what, s').
          Served s msg content s'
          × (what ≡ (if msg.clnt_data.is_last == 1 then freed else cleared)))
        _ (send_ack_and_close s1 msg) (ack_what-Served s1 w) (λ r v. v.0)

  pub add_job-Served :
      (s' : Server) (job : Job)
      → Served s msg content s'
      → Served s msg content (add_job_to_queue s' job)
  unfolding add_job_to_queue
  add_job-Served s' job v = record {
    before = v.before;
    reply = v.reply;
    client = v.client;
    effect = v.effect;
    quiet = v.quiet;
    replied = record {
      one_call = v.replied.one_call;
      goes_out = v.replied.goes_out;
      same_cdb = v.replied.same_cdb;
      same_pl = v.replied.same_pl;
    };
    registry = record {
      sound = v.registry.sound;
      vacant = v.registry.vacant;
      distinct = v.registry.distinct;
    };
  }

  admit-Served :
      (i : ℕ) (s1 : Server)
      → msg.clnt_data.msg_id ≡ register_m
      → Admitted s msg.cli_addr s1 i
      → Quiet s s1
      → IsRegistry s1
      → Returns (Served s msg content) (do
        (_, s'') ← send_ack_and_close s1 (with_clnt_id i msg)
        ok (add_job_to_queue s'' (send_all_update_to_client i)))
  admit-Served i s1 e a q r1 =
      Returns-bind (Closed (with_clnt_id i msg) content holds p.fits res_ok_m s1) _
        (send_ack_and_close s1 (with_clnt_id i msg)) _
        (send_ack_and_close-Closed (with_clnt_id i msg) content holds p.fits s1)
        λ (what, s') (c, _). add_job-Served s' (send_all_update_to_client i) (record {
          before = s1;
          reply = res_ok_m;
          client = i;
          effect = admitted e a;
          quiet = q;
          replied = record {
            one_call = c.one_call;
            goes_out = c.goes_out;
            same_cdb = c.same_cdb;
            same_pl = c.same_pl;
          };
          registry = Replied-IsRegistry c r1;
        })
    where
      holds : Holds (with_clnt_id i msg).clnt_data content
      holds = elim p.holds [ nothing e q n ↦ nothing e q n | bytes q n ↦ bytes q n ]

  register_named-Served :
      (name : List ℕ)
      → msg.clnt_data.msg_id ≡ register_m
      → Returns (Served s msg content) (register_named s msg name)
  unfolding register_named
  register_named-Served name e =
      Returns-bind (λ r. (IsRegistry r.1 × Registration s msg.cli_addr r) × Quiet s r.1) _
        (register_client s name msg.cli_addr) _
        (Returns-Ensures (λ r. IsRegistry r.1 × Registration s msg.cli_addr r) (λ r. Quiet s r.1)
          (register_client s name msg.cli_addr)
          (register_client-Registration r name msg.cli_addr p.address)
          (register_client-Quiet s name msg.cli_addr))
        place
    where
      place :
          (o : Option ℕ × Server)
          → (IsRegistry o.1 × Registration s msg.cli_addr o) × Quiet s o.1
          → Returns (Served s msg content) (elim o.0 [
            | none ↦ nack o.1 msg
            | some id ↦ do
              (_, s'') ← send_ack_and_close o.1 (with_clnt_id id msg)
              ok (add_job_to_queue s'' (send_all_update_to_client id))
          ])
      place (none, s1) ((r1, refused), q) = nack-Served s1 (full_up e refused, q, r1)
      place (some i, s1) ((r1, a), q) = admit-Served i s1 e a q r1

  pub serve_register-Served :
      msg.clnt_data.msg_id ≡ register_m → Returns (Served s msg content) (serve_register s msg)
  unfolding serve_register client_name_of
  serve_register-Served e = elim p.holds [
    | nothing _ _ size ↦ simp size (nack-Served s (no_name e size refl, (refl, refl, refl), r))
    | bytes there size ↦ elim (Bool-cases (msg.clnt_data.payload_size == 0)) [
      | inl zero_size ↦
          simp zero_size (nack-Served s (no_name e (ground arith) refl, (refl, refl, refl), r))
      | inr some_size ↦
          let enough : ltb (length content) msg.clnt_data.payload_size ≡ false = ground arith in
          simp (some_size, there, enough) (register_named-Served _ e)
    ]
  ]
