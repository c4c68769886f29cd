-- ===== src/Examples/Registration.antt =====
-- Clients of MusicServer/src/clientdb.c that come and go, and their requests.
use music_server_app.Base.{
  ◌≡◌, refl, sym, inl, inr, false, List, All, Bool-cases, ◌==◌, [], ◌∷◌, arith, max_client,
}
use music_server_app.Base.Run.{Returns, EndsUnless, fault, out_of_bounds}
use music_server_app.Packet.Bytes.{little}
use music_server_app.Packet.RoundTrip.{full}
use music_server_app.PlayList.{
  Request, init_play_list, get_one_for_downloading, lock, play_list_scheduler, first_client,
  search_from, scan_clients, request_at, fall_back,
}
use music_server_app.NodeList.{init_list}
use music_server_app.PlayList.Invariant.{IsSound, init_play_list-IsSound}
use music_server_app.ClientDb.{Server}
use music_server_app.ClientDb.Register.{register_client, deregister_client, add_to_client_queue}
use music_server_app.ClientDb.Registry.{IsRegistry, Deregistered, deregister_client-IsRegistry}
use music_server_app.ClientDb.Admission.{Registration, register_client-Registration}
use music_server_app.ClientDb.Queueing.{Queued, add_to_client_queue-Queued}
use music_server_app.ClientDb.Unqueueing.{Unqueued, delete_from_queue-Unqueued}
use music_server_app.ClientDb.Slots.{delete_from_queue, get_client_request_for_downloading}
use music_server_app.ClientDb.Positions.{
  Misses, Assigned, get_client_request_for_downloading-Assigned,
}
use music_server_app.ClientDb.Broadcast.{delivered, told, send_one_update_to_all_client_lem}
use music_server_app.ClientDb.Notify.{run_send_one_update_to_all_client}
use music_server_app.Examples.World.{server, add_message, song_bytes, one_request, play_list_of}

-- The two clients without requests.
abbrev pub quiet_server : Server
quiet_server = record server { pl = init_play_list }

pub quiet_server-IsRegistry : IsRegistry quiet_server
quiet_server-IsRegistry = record {
  sound = init_play_list-IsSound;
  vacant = λ i near h. ground arith;
  distinct = λ i j near_i near_j e nonzero. ground arith;
}

-- Client 3's list with these requests, and client 5's.
pub play_list_of-IsSound : (rs : List Request) → All (λ r. r.id ≡ 3) rs → IsSound (play_list_of rs)
play_list_of-IsSound rs owner = record {
  unlocked = refl;
  owned = λ i near. elim (Bool-cases (i == 3)) [
    | inl third ↦ let same : i ≡ 3 = ground arith in rw third (rw same owner)
    | inr not_third ↦ elim (Bool-cases (i == 5)) [
      | inl fifth ↦ let same : i ≡ 5 = ground arith in rw (not_third, fifth) (sym same, tt)
      | inr not_fifth ↦ rw (not_third, not_fifth) tt
    ]
  ];
  downloads = inl refl;
  plays = inl refl;
  unserved = tt;
}

server-IsRegistry : IsRegistry server
server-IsRegistry = record {
  sound = play_list_of-IsSound (one_request ∷ []) (refl, tt);
  vacant = quiet_server-IsRegistry.vacant;
  distinct = quiet_server-IsRegistry.distinct;
}

register_client-Registration_example :
    Returns
      (λ r. IsRegistry r.1 × Registration quiet_server 90 r)
      (register_client quiet_server (b'm' ∷ b'e' ∷ []) 90)
register_client-Registration_example =
    register_client-Registration quiet_server-IsRegistry (b'm' ∷ b'e' ∷ []) 90 (omega arith)

deregister_client-IsRegistry_example :
    Returns
      (λ (res, s'). IsRegistry s' × Deregistered quiet_server 5 s' res)
      (deregister_client quiet_server 5)
deregister_client-IsRegistry_example =
    deregister_client-IsRegistry quiet_server-IsRegistry 5 (omega arith)

add_to_client_queue-Queued_example :
    Returns
      (λ (res, s'). IsRegistry s' × Queued quiet_server 3 7 song_bytes s' res)
      (add_to_client_queue quiet_server 3 7 song_bytes 4)
add_to_client_queue-Queued_example =
    add_to_client_queue-Queued quiet_server-IsRegistry 3 7 (omega arith) song_bytes

delete_from_queue-Unqueued_example :
    Returns
      (λ (res, s'). IsRegistry s' × Unqueued quiet_server 3 7 s' res)
      (delete_from_queue quiet_server 3 7)
delete_from_queue-Unqueued_example =
    delete_from_queue-Unqueued quiet_server-IsRegistry 3 7 (omega arith)

send_one_update_to_all_client_lem_example :
    Returns
      (λ s'.
        (s'.outbox
          ≡ delivered little add_message song_bytes false server.client_ip
              (told max_client 0 server.client_state add_message)
              [])
        × (s'.cdb ≡ server.cdb)
        × (s'.pl ≡ server.pl)
        × (s'.jobs ≡ server.jobs))
      (run_send_one_update_to_all_client server add_message)
send_one_update_to_all_client_lem_example =
    send_one_update_to_all_client_lem add_message song_bytes (full refl refl) (omega arith)
      (omega arith) server (record { connected = λ n ip. refl; sent = λ n. refl })

get_client_request_for_downloading-Assigned_example :
    EndsUnless
      (Misses server)
      (λ (req, s'). IsRegistry s' × Assigned server s' req)
      (get_client_request_for_downloading server)
get_client_request_for_downloading-Assigned_example =
    get_client_request_for_downloading-Assigned server-IsRegistry

-- With no request at all, and none downloaded before.
quiet_server_overreads : get_client_request_for_downloading quiet_server ≡ fault out_of_bounds
unfolding get_client_request_for_downloading get_one_for_downloading lock play_list_scheduler
    first_client search_from scan_clients request_at fall_back init_play_list init_list
quiet_server_overreads = refl
