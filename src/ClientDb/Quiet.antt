-- ===== src/ClientDb/Quiet.antt =====
-- The operations of MusicServer/src/clientdb.c that send nothing themselves: they leave the network
-- as it was.
use music_server_app.Base.{
  ℕ, ◌≡◌, ◌∙◌, Bool, refl, inl, inr, true, false, not, List, ltb, ◌==◌, Bool-cases, max_client,
  ge_max_client, in_array, length, take,
}
use music_server_app.Base.Run.{
  Run, Fault, out_of_bounds, ◌>>◌, require, Ensures, Ensures-any, Ensures-bind,
}
use music_server_app.PlayList.{
  PlState, delete_from_play_list, add_to_play_list, delete_from_client_having_token,
}
use music_server_app.ClientDb.{
  Server, is_unregistered, find_client, add_job_to_queue, unlink, set_scheduled,
}
use music_server_app.ClientDb.Register.{
  check_and_delete_current_list, forget_client, deregister_client, drop_old_session, enter_client,
  take_free_place, register_client, add_to_client_queue,
}
use music_server_app.ClientDb.Slots.{
  delete_request, delete_scheduled, delete_from_queue, holds_request, set_slot_status,
}
use music_server_app.ClientDb.Search.{check_and_delete_current_list-KeepsClients}

abbrev pub Quiet : Server → Server → Type 0
Quiet s s' = (s'.network_calls ≡ s.network_calls) × (s'.outbox ≡ s.outbox) × (s'.env ≡ s.env)

-- A run that goes on only where a condition holds.
Ensures-require :
    (b : Bool) (e : Fault) {A : Type 0} (Q : A → Type 0) (m : Run A)
    → Ensures Q m
    → Ensures Q (require b e >> m)
Ensures-require true e Q m h = h
Ensures-require false e Q m h = tt

module _ (s : Server) where
  forget_client-Quiet : (id : ℕ) → Ensures (Quiet s) (forget_client s id)
  unfolding forget_client add_job_to_queue
  forget_client-Quiet id =
      let k = check_and_delete_current_list-KeepsClients s id in
      Ensures-any _ (delete_from_play_list (check_and_delete_current_list s id).pl id) _
        λ r. (k.same_calls, k.same_outbox, k.same_env)

  pub deregister_client-Quiet :
      (id : ℕ) → Ensures (λ (res, s'). Quiet s s') (deregister_client s id)
  unfolding deregister_client
  deregister_client-Quiet id = elim (Bool-cases (ge_max_client id)) [
    | inl e ↦ rw e (refl, refl, refl)
    | inr e ↦ rw e (
        Ensures-require (in_array id) out_of_bounds _ _
          (elim (Bool-cases (is_unregistered (s.client_state id))) [
            | inl u ↦ rw u (refl, refl, refl)
            | inr u ↦
                rw u (
                  Ensures-bind (Quiet s) _ (forget_client s id) _ (forget_client-Quiet id)
                    λ s' q. q)
          ]))
  ]

  drop_old_session-Quiet : (ip : ℕ) → Ensures (Quiet s) (drop_old_session s ip)
  unfolding drop_old_session
  drop_old_session-Quiet ip =
      elim (Bool-cases (ltb (find_client (λ i. s.client_ip i == ip)) max_client)) [
        | inl e ↦ rw e (
            Ensures-bind (λ (res, s'). Quiet s s') _ (deregister_client s _) _
              (deregister_client-Quiet _) λ r q. q)
        | inr e ↦ rw e (refl, refl, refl)
      ]

  take_free_place-Quiet : (name : List ℕ) (ip : ℕ) → Quiet s (take_free_place s name ip).1
  unfolding take_free_place enter_client
  take_free_place-Quiet name ip =
      elim (Bool-cases (ltb (find_client (λ i. is_unregistered (s.client_state i))) max_client)) [
        | inl e ↦ rw e (refl, refl, refl)
        | inr e ↦ rw e (refl, refl, refl)
      ]

  pub add_to_client_queue-Quiet :
      (id token : ℕ) (bytes : List ℕ) (size : ℕ)
      → Ensures (λ (res, s'). Quiet s s') (add_to_client_queue s id token bytes size)
  unfolding add_to_client_queue
  add_to_client_queue-Quiet id token bytes size =
      Ensures-require (in_array id) out_of_bounds _ _
        (elim (Bool-cases (is_unregistered (s.client_state id))) [
          | inl u ↦ rw u (refl, refl, refl)
          | inr u ↦ rw u (
              Ensures-require (not (ltb (length bytes) size)) out_of_bounds _ _ (
                Ensures-any _ (add_to_play_list s.pl id token (take size bytes) size) _
                  λ r. (refl, refl, refl)))
        ])

  pub delete_request-Quiet :
      (id token : ℕ) → Ensures (λ (res, s'). Quiet s s') (delete_request s id token)
  unfolding delete_request
  delete_request-Quiet id token =
      Ensures-any _ (delete_from_client_having_token s.pl id token) _ λ r. (refl, refl, refl)

pub register_client-Quiet :
    (s : Server) (name : List ℕ) (ip : ℕ) → Ensures (λ r. Quiet s r.1) (register_client s name ip)
unfolding register_client
register_client-Quiet s name ip =
    Ensures-bind (Quiet s) _ (drop_old_session s ip) _ (drop_old_session-Quiet s ip)
      λ s1 q. let r = take_free_place-Quiet s1 name ip in (r.0 ∙ q.0, r.1 ∙ q.1, r.2 ∙ q.2)

delete_scheduled-Quiet :
    (state : PlState) (s : Server) (i id token : ℕ)
    → Ensures (λ (res, s'). Quiet s s') (delete_scheduled state s i id token)
unfolding delete_scheduled unlink set_slot_status set_scheduled
delete_scheduled-Quiet PlState.playing s i id token = (refl, refl, refl)
delete_scheduled-Quiet PlState.ready s i id token =
    delete_request-Quiet (unlink (set_slot_status s i PlState.unset) (s.sch_data i).file_name) id
      token
delete_scheduled-Quiet PlState.unset s i id token = (refl, refl, refl)
delete_scheduled-Quiet PlState.waiting s i id token = (refl, refl, refl)
delete_scheduled-Quiet PlState.downloading s i id token = (refl, refl, refl)

pub delete_from_queue-Quiet :
    (s : Server) (id token : ℕ) → Ensures (λ (res, s'). Quiet s s') (delete_from_queue s id token)
unfolding delete_from_queue
delete_from_queue-Quiet s id token = elim (Bool-cases (ge_max_client id)) [
  | inl e ↦ rw e (refl, refl, refl)
  | inr e ↦ rw e (
      Ensures-require (in_array id) out_of_bounds _ _
        (elim (Bool-cases (is_unregistered (s.client_state id))) [
          | inl u ↦ rw u (refl, refl, refl)
          | inr u ↦ rw u (elim (Bool-cases (holds_request s 0 id token)) [
            | inl first ↦ rw first (delete_scheduled-Quiet (s.sch_data 0).status s 0 id token)
            | inr not_first ↦ rw not_first (elim (Bool-cases (holds_request s 1 id token)) [
              | inl second ↦ rw second (delete_scheduled-Quiet (s.sch_data 1).status s 1 id token)
              | inr neither ↦ rw neither (delete_request-Quiet s id token)
            ])
          ])
        ]))
]
