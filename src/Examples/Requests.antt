-- ===== src/Examples/Requests.antt =====
-- Messages of clients that `servClientRequest` of MusicServer/src/resourceManager.c serves.
use music_server_app.Base.{◌≡◌, refl, some, [], ◌∷◌, arith, Outcome}
use music_server_app.Base.Run.{EndsUnless, Run, ok, fault, use_after_free, Returns}
use music_server_app.ClientDb.{ClntMsg}
use music_server_app.PlayList.{
  lock, delete_from_client_having_token, delete_one_of, put_list, init_play_list,
}
use music_server_app.ClientDb.Slots.{delete_from_queue, delete_request}
use music_server_app.NodeList.{delete_one_from_list_having, init_list}
use music_server_app.ResourceManager.Requests.{serv_client_request, serve_delete, read_token}
use music_server_app.Packet.Bytes.{ntohl, from_memory}
use music_server_app.ResourceManager.Answers.{bytes}
use music_server_app.ResourceManager.Effects.{IsProper, Served}
use music_server_app.ResourceManager.Served.{serv_client_request-Served}
use music_server_app.ResourceManager.{RManager, clnt_msg}
use music_server_app.ResourceManager.Machine.{serv_request}
use music_server_app.ResourceManager.Diagram.{Follows}
use music_server_app.ResourceManager.Ends.{Overruns, serv_request_ends}
use music_server_app.ClientDb.Registry.{IsRegistry}
use music_server_app.ResourceManager.Freed.{serve_delete_last}
use music_server_app.Examples.World.{message, song_bytes, manager}
use music_server_app.Examples.Registration.{quiet_server, quiet_server-IsRegistry}

-- Client 3 asks for a song.
abbrev song_request : ClntMsg
song_request = message 3 (some song_bytes) 4

song_request-IsProper : IsProper song_request song_bytes
song_request-IsProper = record {
  holds = bytes refl refl;
  fits = omega arith;
  client = omega arith;
  address = omega arith;
  deletion = λ e. absurd (omega (arith, e));
}

serv_client_request-Served_example :
    Returns
      (Served quiet_server song_request song_bytes)
      (serv_client_request quiet_server song_request)
serv_client_request-Served_example =
    serv_client_request-Served quiet_server-IsRegistry song_request song_bytes song_request-IsProper

-- Client 3 takes back the request 0x01020304, and says no more.
abbrev deletion : ClntMsg
deletion = message 4 (some (1 ∷ 2 ∷ 3 ∷ 4 ∷ [])) 4

abbrev after {ℓ} : {A : Type ℓ} → A → Run (Outcome × A) → A
after s (ok (res, s')) = s'
after s (fault e) = s

serve_delete_last_example : serve_delete quiet_server deletion ≡ fault use_after_free
unfolding read_token delete_from_queue delete_request lock delete_from_client_having_token
    delete_one_of put_list init_play_list delete_one_from_list_having init_list ntohl from_memory
serve_delete_last_example =
    serve_delete_last quiet_server deletion (1 ∷ 2 ∷ 3 ∷ 4 ∷ []) {token = 0x01020304}
      (bytes refl refl) (omega arith) refl refl refl

-- The manager of that server, before any song.
abbrev quiet_manager : RManager
quiet_manager = record manager { server = quiet_server }

serv_request_ends_example :
    EndsUnless
      (Overruns quiet_manager song_request)
      (λ rm'. IsRegistry rm'.server × Follows quiet_manager (clnt_msg song_request) rm')
      (serv_request quiet_manager (clnt_msg song_request))
serv_request_ends_example =
    serv_request_ends quiet_manager song_request song_bytes quiet_server-IsRegistry
      song_request-IsProper
