-- ===== src/ClientDb/Synced.antt =====
-- `sendAllUpdateToClient` of MusicServer/src/clientdb.c, where the client can be reached: it ends, and
-- the client has been told of all requests of the others.
-- requests it is told, in which order.
use mathlib.Core.Path.{subst}
use music_server_app.Base.{
  ℕ, zero, suc, ◌+◌, ◌<◌, ◌≡◌, ◌≢◌, ◌⊎◌, refl, sym, ap, ◌∙◌, inl, inr, Bool, true, false, List, [],
  ◌∷◌, arith, if◌then◌else◌, ◌==◌, Bool-cases, lt→ltb, max_client, length, All, g_ok, g_fail,
  ge_max_client,
}
use music_server_app.Base.Run.{Returns, Returns-bind, Returns-mono}
use music_server_app.NodeList.{NodeList, IsCounted}
use music_server_app.PlayList.{Request, PlayList, lock}
use music_server_app.ClientDb.{Server, is_unregistered}
use music_server_app.ClientDb.Broadcast.{Reaches}
use music_server_app.ClientDb.Notify.{
  Sync, send_request, send_list, send_lists, with_lock, sync_client, run_send_all_update_to_client,
}
use music_server_app.ClientDb.Syncing.{
  IsSendable, others, Told, Reaches-Told, Told-append, send_request-Told,
}

-- A list of a client, with as many rounds as it has nodes.
send_list-Told :
    (rs : List Request) (y : Sync) (id : ℕ)
    → id < max_client
    → Reaches y.server
    → All IsSendable rs
    → Returns
        (λ y'.
          ((y'.sent ≡ g_ok) ⊎ ((rs ≡ []) × (y'.sent ≡ y.sent))) × Told y.server id rs y'.server)
        (send_list (length rs) rs id y)
unfolding send_list
send_list-Told [] y id near reach fits = (
  inr (refl, refl),
  record {
    outbox_is = refl;
    token_is = refl;
    cdb_is = refl;
    pl_is = refl;
    jobs_is = refl;
    env_is = refl;
  },
)
send_list-Told (r ∷ rs) y id near reach (fit, fits) =
    Returns-bind
      (λ (res, y'). (res ≡ g_ok) × (y'.sent ≡ g_ok) × Told y.server id (r ∷ []) y'.server) _
      (send_request y id r) _ (send_request-Told y id r near reach fit)
      λ v t. rw t.0 (
        Returns-mono
          (λ y'.
            ((y'.sent ≡ g_ok) ⊎ ((rs ≡ []) × (y'.sent ≡ v.1.sent)))
            × Told v.1.server id rs y'.server)
          _ (send_list (length rs) rs id v.1)
          (send_list-Told rs v.1 id near (Reaches-Told y.server id (r ∷ []) v.1.server reach t.2)
            fits)
          λ y' u. (
            inl (elim u.0 [ inl sent ↦ sent | inr (none_left, same) ↦ same ∙ t.1 ]),
            Told-append y.server id (r ∷ []) rs v.1.server y'.server t.2 u.1,
          ))

-- Each list has as many nodes as `totalNode` says, and all of its requests can be sent.
abbrev pub AreSendable : PlayList → Type 0
AreSendable pl =
    (i : ℕ) → i < max_client → IsCounted (pl.p_list i) × All IsSendable (pl.p_list i).nodes

Told-none : (s : Server) (id : ℕ) → Told s id [] s
Told-none s id = record {
  outbox_is = refl;
  token_is = refl;
  cdb_is = refl;
  pl_is = refl;
  jobs_is = refl;
  env_is = refl;
}

no_nodes : (l : NodeList Request) → IsCounted l → (l.total_node == 0) ≡ true → l.nodes ≡ []
no_nodes l c none_there = go l.nodes (ground (arith, c, none_there))
  where
    go : (xs : List Request) → length xs ≡ 0 → xs ≡ []
    go [] e = refl
    go (x ∷ xs) e = absurd (omega (arith, e))

some_nodes : (l : NodeList Request) → IsCounted l → (l.total_node == 0) ≡ false → l.nodes ≢ []
some_nodes l c there same = ground (arith, c, there, ap length same)

send_lists-Told :
    (k i : ℕ) (y : Sync) (id : ℕ)
    → id < max_client
    → i + k < suc max_client
    → Reaches y.server
    → is_unregistered (y.server.client_state id) ≡ false
    → AreSendable y.server.pl
    → Returns (λ y'. Told y.server id (others k i id y.server.pl) y'.server) (send_lists k i id y)
unfolding send_lists
send_lists-Told zero i y id near within reach there sendable = Told-none y.server id
send_lists-Told (suc k) i y id near within reach there sendable = elim (Bool-cases (i == id)) [
  | inl own ↦
      rw (there, own)
        (send_lists-Told k (i + 1) y id near (omega (arith, within)) reach there sendable)
  | inr other ↦
      let l : NodeList Request = y.server.pl.p_list i in
      let (counted, fits) = sendable i (omega (arith, within)) in
      elim (Bool-cases (l.total_node == 0)) [
        | inl none_there ↦
            rw (there, other, none_there, no_nodes l counted none_there)
              (send_lists-Told k (i + 1) y id near (omega (arith, within)) reach there sendable)
        | inr some_there ↦
            rw (there, other, some_there, counted)
              (Returns-bind
                (λ y'.
                  ((y'.sent ≡ g_ok) ⊎ ((l.nodes ≡ []) × (y'.sent ≡ y.sent)))
                  × Told y.server id l.nodes y'.server)
                _ (send_list (length l.nodes) l.nodes id y) _
                (send_list-Told l.nodes y id near reach fits)
                λ y' t.
                  let sent : y'.sent ≡ g_ok = elim t.0 [
                    | inl ok_sent ↦ ok_sent
                    | inr (empty, _) ↦ absurd (some_nodes l counted some_there empty)
                  ] in
                  simp sent (
                    Returns-mono
                      (λ x. Told y'.server id (others k (i + 1) id y'.server.pl) x.server) _
                      (send_lists k (i + 1) id y')
                      (send_lists-Told k (i + 1) y' id near (omega (arith, within))
                        (Reaches-Told y.server id l.nodes y'.server reach t.1)
                        (ap (λ cdb. is_unregistered (cdb.client_state id)) t.1.cdb_is ∙ there)
                        (subst AreSendable (sym t.1.pl_is) sendable))
                      λ x u.
                        Told-append y.server id l.nodes (others k (i + 1) id y.server.pl) y'.server
                          x.server t.1
                          (subst (λ pl. Told y'.server id (others k (i + 1) id pl) x.server)
                            t.1.pl_is u)))
      ]
]

-- Where the client can be reached and each list has as many nodes as `totalNode` says,
-- `sendAllUpdateToClient` for a registered client ends and has sent it the requests of all others, in
-- the order of the clients' numbers and then of the lists, each with a token of its own; nothing is
-- sent where the play list has the size 0. Clients, requests and jobs are as they were, and the lock
-- is released.
pub run_send_all_update_to_client-Told :
    (s : Server) (id : ℕ)
    → id < max_client
    → Reaches s
    → is_unregistered (s.client_state id) ≡ false
    → s.pl.locked ≡ false
    → AreSendable s.pl
    → Returns
        (Told s id (if s.pl.play_list_size == 0 then [] else others max_client 0 id s.pl))
        (run_send_all_update_to_client s id)
unfolding run_send_all_update_to_client sync_client lock
run_send_all_update_to_client-Told s id near reach there free sendable =
    let small : ge_max_client id ≡ false = ground arith in
    let start : Sync = record { connected = false; sent = g_fail; server = with_lock true s } in
    let unlocked : PlayList → PlayList = λ pl. record pl { locked = false } in
    let at_lock : Bool → PlayList = λ b. record s.pl { locked = b } in
    elim (Bool-cases (s.pl.play_list_size == 0)) [
      | inl none_there ↦
          rw (small, lt→ltb _ _ near) (simp (there, free, none_there) (Told-none s id))
      | inr some_there ↦
          rw (small, lt→ltb _ _ near)
            (simp (there, free, some_there)
              (Returns-bind (λ y. Told (with_lock true s) id (others max_client 0 id s.pl) y.server)
                _ (send_lists max_client 0 id start) _
                (send_lists-Told max_client 0 start id near (omega arith)
                  (record { connected = reach.connected; sent = reach.sent }) there sendable)
                λ y t. record {
                  outbox_is = t.outbox_is;
                  token_is = t.token_is;
                  cdb_is = t.cdb_is;
                  pl_is = ap unlocked t.pl_is ∙ ap at_lock (sym free);
                  jobs_is = t.jobs_is;
                  env_is = t.env_is;
                }))
    ]
