-- ===== src/Examples/Updates.antt =====
-- What a client is told of the play list when it registers.
use music_server_app.Base.{
  ℕ, ◌≡◌, ◌≢◌, refl, inl, inr, false, [], ◌∷◌, arith, ◌==◌, Bool-cases, max_client, All,
}
use music_server_app.Base.Run.{fault, deadlock, Returns}
use music_server_app.NodeList.{IsCounted}
use music_server_app.ClientDb.{Server}
use music_server_app.ClientDb.Notify.{run_send_all_update_to_client}
use music_server_app.ClientDb.Syncing.{Told, IsSendable, others}
use music_server_app.ClientDb.Synced.{run_send_all_update_to_client-Told}
use music_server_app.ClientDb.Deadlock.{run_send_all_update_to_client_deadlock}
use music_server_app.Examples.World.{server, reachable, other_request}

lists_are : (i : ℕ) → IsCounted (server.pl.p_list i) × All IsSendable (server.pl.p_list i).nodes
lists_are i = elim (Bool-cases (i == 3)) [
  | inl third ↦ rw third (refl, ((refl, omega arith), tt))
  | inr not_third ↦ elim (Bool-cases (i == 5)) [
    | inl fifth ↦ rw (not_third, fifth) (refl, ((refl, omega arith), tt))
    | inr other ↦ rw (not_third, other) (refl, tt)
  ]
]

run_send_all_update_to_client-Told_example :
    Returns (Told server 3 (other_request ∷ [])) (run_send_all_update_to_client server 3)
run_send_all_update_to_client-Told_example =
    run_send_all_update_to_client-Told server 3 (omega arith)
      (record { connected = λ n ip. refl; sent = λ n. refl }) refl refl (λ i near. lists_are i)

-- No client can be reached.
abbrev cut_off : Server
cut_off = record server { env = record reachable { connects = λ n ip. false } }

has_others : others max_client 0 3 cut_off.pl ≢ []
has_others same = cc

run_send_all_update_to_client_deadlock_example :
    run_send_all_update_to_client cut_off 3 ≡ fault deadlock
run_send_all_update_to_client_deadlock_example =
    run_send_all_update_to_client_deadlock cut_off 3 (omega arith) refl refl (omega arith)
      (λ i near. (lists_are i).0) has_others refl
