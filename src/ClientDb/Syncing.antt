-- ===== src/ClientDb/Syncing.antt =====
-- `sendAllUpdateToClient` of MusicServer/src/clientdb.c, where the client can be reached: which
-- requests it is told, in which order.
use music_server_app.Base.{
  ℕ, zero, suc, ◌+◌, ◌^◌, ◌<◌, ◌≡◌, refl, sym, ap, ◌∙◌, inl, inr, List, [], ◌∷◌, ◌++◌,
  if◌then◌else◌, ◌==◌, Bool-cases, lt→ltb, max_client, length, g_ok,
}
use music_server_app.Base.Run.{ok, Returns, ◌>>=◌}
use music_server_app.Packet.{ClntData, header_size, encode_packet, get_new_token, client_update_all}
use music_server_app.Packet.RoundTrip.{full, layout, encoded, encode_packet-layout}
use music_server_app.PlayList.{Request, PlayList}
use music_server_app.ClientDb.{Server}
use music_server_app.ClientDb.Broadcast.{Reaches}
use music_server_app.ClientDb.Notify.{
  connect_to_client, transmit, send_one_update, update_message, Sync, connect_once, send_request,
}

-- A request can be sent: its size is that of its payload, and the packet's size is a 32-bit word.
abbrev pub IsSendable : Request → Type 0
IsSendable r = (r.size ≡ length r.payload) × (header_size + r.size < 2 ^ 32)

abbrev pub next_token : ℕ → ℕ
next_token token = (get_new_token token).0

-- The token that was used last.
abbrev pub token_after : ℕ → List Request → ℕ
token_after token [] = token
token_after token (r ∷ rs) = token_after (next_token token) rs

token_after-append :
    (token : ℕ) (xs ys : List Request)
    → token_after token (xs ++ ys) ≡ token_after (token_after token xs) ys
token_after-append token [] ys = refl
token_after-append token (x ∷ xs) ys = token_after-append (next_token token) xs ys

-- The requests of `k` clients from `i` on, without those of client `id`.
abbrev pub others : ℕ → ℕ → ℕ → PlayList → List Request
others zero i id pl = []
others (suc k) i id pl =
    if i == id then others k (i + 1) id pl else (pl.p_list i).nodes ++ others k (i + 1) id pl

-- The packet that tells client `id` of a request.
abbrev pub update_packet : ℕ → ℕ → ℕ → Request → List ℕ
update_packet garbage id token r =
    layout
      (record {
        total_size = 0;
        token = token;
        msg_id = client_update_all;
        clnt_id = id;
        signature = garbage;
        is_last = 0;
      })
      (header_size + r.size) r.payload

module _ (garbage id ip : ℕ) where
  -- The outbox, its newest packet first, once these requests have been sent in this order, each with a
  -- token of its own.
  abbrev pub synced : ℕ → List Request → List (ℕ × List ℕ) → List (ℕ × List ℕ)
  synced token [] out = out
  synced token (r ∷ rs) out =
      synced (next_token token) rs ((ip, update_packet garbage id (next_token token) r) ∷ out)

  synced-append :
      (token : ℕ) (xs ys : List Request) (out : List (ℕ × List ℕ))
      → synced token (xs ++ ys) out ≡ synced (token_after token xs) ys (synced token xs out)
  synced-append token [] ys out = refl
  synced-append token (x ∷ xs) ys out =
      synced-append (next_token token) xs ys
        ((ip, update_packet garbage id (next_token token) x) ∷ out)

-- From `s` on, these requests have been sent to client `id`, and nothing else has changed.
pub record Told (s : Server) (id : ℕ) (rs : List Request) (s' : Server) : Type 0 where
  pub outbox_is : s'.outbox ≡ synced s.env.garbage id (s.client_ip id) s.token rs s.outbox
  pub token_is : s'.token ≡ token_after s.token rs
  pub cdb_is : s'.cdb ≡ s.cdb
  pub pl_is : s'.pl ≡ s.pl
  pub jobs_is : s'.jobs ≡ s.jobs
  pub env_is : s'.env ≡ s.env

pub Reaches-Told :
    (s : Server) (id : ℕ) (rs : List Request) (s' : Server)
    → Reaches s
    → Told s id rs s'
    → Reaches s'
Reaches-Told s id rs s' reach t = record {
  connected = λ n ip. rw t.env_is (reach.connected n ip);
  sent = λ n. rw t.env_is (reach.sent n);
}

pub Told-append :
    (s : Server) (id : ℕ) (xs ys : List Request) (s' s'' : Server)
    → Told s id xs s'
    → Told s' id ys s''
    → Told s id (xs ++ ys) s''
Told-append s id xs ys s' s'' t u = record {
  outbox_is =
      u.outbox_is
      ∙ rw (t.env_is, t.cdb_is, t.token_is, t.outbox_is)
          (sym (synced-append s.env.garbage id (s.client_ip id) s.token xs ys s.outbox));
  token_is = u.token_is ∙ rw t.token_is (sym (token_after-append s.token xs ys));
  cdb_is = u.cdb_is ∙ t.cdb_is;
  pl_is = u.pl_is ∙ t.pl_is;
  jobs_is = u.jobs_is ∙ t.jobs_is;
  env_is = u.env_is ∙ t.env_is;
}

-- One request.
pub send_request-Told :
    (y : Sync) (id : ℕ) (r : Request)
    → id < max_client
    → Reaches y.server
    → IsSendable r
    → Returns
        (λ (res, y'). (res ≡ g_ok) × (y'.sent ≡ g_ok) × Told y.server id (r ∷ []) y'.server)
        (send_request y id r)
unfolding send_request connect_once connect_to_client send_one_update transmit update_message
    get_new_token
send_request-Told y id r near reach fits =
    let packed : (s : Server)
        → s.env ≡ y.server.env
        → (token : ℕ)
        → (m : ClntData) × (encode_packet s.env.order (update_message s id r token)
            ≡ ok (m, update_packet y.server.env.garbage id token r)) =
      λ s same token. (
        encoded s.env.order (update_message s id r token),
        encode_packet-layout s.env.order (update_message s id r token) r.payload (full refl fits.0)
              fits.1
            ∙ ap
                (λ e. ok (
                  encoded s.env.order (update_message s id r token),
                  update_packet e.garbage id token r,
                ))
                same,
      ) in
    elim (Bool-cases y.connected) [
      | inl connected ↦
          let (m, e) =
            packed (record y.server { token = next_token y.server.token }) refl
              (next_token y.server.token) in
          rw (connected, e, reach.sent y.server.network_calls, ◌>>=◌)
            (
              refl,
              refl,
              record {
                outbox_is = refl;
                token_is = refl;
                cdb_is = refl;
                pl_is = refl;
                jobs_is = refl;
                env_is = refl;
              },
            )
      | inr fresh ↦
          let (m, e) =
            packed
              (record y.server {
                token = next_token y.server.token;
                network_calls = suc y.server.network_calls;
              })
              refl (next_token y.server.token) in
          rw
            (
              fresh,
              lt→ltb _ _ near,
              reach.connected y.server.network_calls (y.server.client_ip id),
              e,
              reach.sent (suc y.server.network_calls),
              ◌>>=◌,
            )
            (
              refl,
              refl,
              record {
                outbox_is = refl;
                token_is = refl;
                cdb_is = refl;
                pl_is = refl;
                jobs_is = refl;
                env_is = refl;
              },
            )
    ]
