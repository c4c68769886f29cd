-- ===== src/ClientDb/Registry.antt =====
-- What registration in MusicServer/src/clientdb.c keeps: every address belongs to one client, and a
-- place that is free has none.
use music_server_app.Base.{
  ℕ, ◌<◌, ◌≡◌, ◌≢◌, inl, inr, refl, sym, ap, update-same, update-other, ◌∙◌, true, false, arith,
  Outcome, g_ok, g_fail, ◌==◌, Bool-cases, lt→ltb, max_client, ge_max_client,
}
use music_server_app.Base.Run.{Returns, Returns-bind}
use music_server_app.PlayList.{delete_from_play_list}
use music_server_app.PlayList.Invariant.{IsSound}
use music_server_app.PlayList.Soundness.{delete_from_play_list-IsSound}
use music_server_app.ClientDb.{Server, unregistered, is_unregistered, find_client, add_job_to_queue}
use music_server_app.ClientDb.Register.{
  check_and_delete_current_list, forget_client, deregister_client, drop_old_session,
}
use music_server_app.ClientDb.Search.{
  found, missing, find_client-Search, check_and_delete_current_list-KeepsClients,
}

-- The play list is sound, each address is one client's, and a free place has the address 0.
pub record IsRegistry (s : Server) : Type 0 where
  pub sound : IsSound s.pl
  pub vacant :
      (i : ℕ) → i < max_client → is_unregistered (s.client_state i) ≡ true → s.client_ip i ≡ 0
  pub distinct :
      (i j : ℕ)
      → i < max_client
      → j < max_client
      → s.client_ip i ≡ s.client_ip j
      → s.client_ip i ≢ 0
      → i ≡ j

-- Client `id` has gone, and the places of the others are as they were.
pub record Left (s : Server) (id : ℕ) (s' : Server) : Type 0 where
  pub gone : s'.client_state id ≡ unregistered
  pub no_address : s'.client_ip id ≡ 0
  pub others :
      (j : ℕ) → j ≢ id → (s'.client_state j ≡ s.client_state j) × (s'.client_ip j ≡ s.client_ip j)

module _ (s : Server) (s' : Server) (id : ℕ) (r : IsRegistry s) (left : Left s id s') where
  with_address : (i : ℕ) → s'.client_ip i ≢ 0 → i ≢ id
  with_address i nonzero same = nonzero (rw same left.no_address)

  Left-IsRegistry : IsSound s'.pl → IsRegistry s'
  Left-IsRegistry sound = record {
    sound = sound;
    vacant = λ i near h. elim (Bool-cases (i == id)) [
      | inl e ↦ let same : i ≡ id = ground arith in rw same left.no_address
      | inr e ↦
          let other = left.others i (ground arith) in other.1 ∙ r.vacant i near (rw (other.0) at h)
    ];
    distinct = λ i j near_i near_j e nonzero.
        let at_i = (left.others i (with_address i nonzero)).1 in
        let at_j = (left.others j (with_address j (λ zero_j. nonzero (e ∙ zero_j)))).1 in
        r.distinct i j near_i near_j (sym at_i ∙ e ∙ at_j) (λ zero_i. nonzero (at_i ∙ zero_i));
  }

forget_client-Left :
    (s : Server) (id : ℕ)
    → IsSound s.pl
    → id < max_client
    → Returns (λ s'. Left s id s' × IsSound s'.pl) (forget_client s id)
unfolding forget_client add_job_to_queue
forget_client-Left s id sound h =
    let k = check_and_delete_current_list-KeepsClients s id in
    let s1 = check_and_delete_current_list s id in
    rw k.same_list (
      Returns-bind (λ (_, pl'). IsSound pl') (λ s'. Left s id s' × IsSound s'.pl)
        (delete_from_play_list s.pl id) _ (delete_from_play_list-IsSound sound id h)
        (λ (res, pl') v. (
          record {
            gone = update-same s1.client_state id unregistered;
            no_address = update-same s1.client_ip id 0;
            others = λ j ne. (
              update-other s1.client_state id unregistered ne ∙ ap (λ f. f j) k.same_states,
              update-other s1.client_ip id 0 ne ∙ ap (λ f. f j) k.same_ips,
            );
          },
          v,
        )))

-- What a deregistration leaves: nothing has changed, or a registered client has left.
pub data Deregistered (s : Server) (id : ℕ) (s' : Server) : Outcome → Type 0 where
  left : is_unregistered (s.client_state id) ≡ false → Left s id s' → Deregistered s id s' g_ok
  unknown : is_unregistered (s.client_state id) ≡ true → s' ≡ s → Deregistered s id s' g_fail

-- `deregisterClientFunc` of a client number in range ends. A registered client has left, with
-- `G_OK`; for one that is not registered nothing changes, with `G_FAIL`. Addresses stay distinct and
-- free places stay without one.
pub deregister_client-IsRegistry :
    {s : Server}
    → IsRegistry s
    → (id : ℕ) → id < max_client
    → Returns (λ (res, s'). IsRegistry s' × Deregistered s id s' res) (deregister_client s id)
unfolding deregister_client
deregister_client-IsRegistry {s} r id h =
    let small : ge_max_client id ≡ false = ground arith in
    rw (small, lt→ltb _ _ h)
      (elim (Bool-cases (is_unregistered (s.client_state id))) [
        | inl e ↦ rw e (r, unknown e refl)
        | inr e ↦ rw e (
            Returns-bind (λ s'. Left s id s' × IsSound s'.pl)
              (λ (res, s'). IsRegistry s' × Deregistered s id s' res) (forget_client s id) _
              (forget_client-Left s id r.sound h)
              (λ s' v. (Left-IsRegistry s s' id r v.0 v.1, left e v.0)))
      ])

-- The server after the old session of an address is dropped: none had the address, or one has left.
pub data Dropped (s : Server) (ip : ℕ) (s1 : Server) : Type 0 where
  none_had : ((i : ℕ) → i < max_client → s.client_ip i ≢ ip) → s1 ≡ s → Dropped s ip s1
  one_left : (old : ℕ) → old < max_client → s.client_ip old ≡ ip → Left s old s1 → Dropped s ip s1

module _ {s : Server} (r : IsRegistry s) (ip : ℕ) (nonzero : ip ≢ 0) where
  pub drop_old_session-Dropped :
      Returns (λ s1. IsRegistry s1 × Dropped s ip s1) (drop_old_session s ip)
  unfolding drop_old_session
  drop_old_session-Dropped = elim (find_client-Search (λ i. s.client_ip i == ip)) [
    | found _ near hit ↦
        let old = find_client (λ i. s.client_ip i == ip) in
        let at_old : s.client_ip old ≡ ip = ground arith in
        rw (lt→ltb _ _ near) (
          Returns-bind (λ (res, s'). IsRegistry s' × Deregistered s old s' res)
            (λ s1. IsRegistry s1 × Dropped s ip s1) (deregister_client s old) _
            (deregister_client-IsRegistry r old near)
            (λ (res, s1) v. (v.0, after old near at_old v.1)))
    | missing e none_passes ↦ rw e (
      r,
      none_had (λ i near same. let no = none_passes i (omega arith) near in ground arith) refl,
    )
  ]
    where
      after :
          {s1 : Server} {res : Outcome} (old : ℕ)
          → old < max_client
          → s.client_ip old ≡ ip
          → Deregistered s old s1 res
          → Dropped s ip s1
      after old near at_old (left known gone) = one_left old near at_old gone
      after old near at_old (unknown e same) = absurd (nonzero (sym at_old ∙ r.vacant old near e))
