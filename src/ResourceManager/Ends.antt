-- ===== src/ResourceManager/Ends.antt =====
-- `servRequest` of MusicServer/src/resourceManager.c for a client's message, with the run of the state
-- machine: it comes to its end.
use music_server_app.Base.{ℕ, inl, inr, not, ◌&&◌, List, Option, none, some, Bool-cases, ◌==◌}
use music_server_app.Base.Run.{
  Returns, Returns-value, EndsUnless, ends, EndsUnless-bind, EndsUnless-same, EndsUnless-Ensures,
}
use music_server_app.Packet.{register_m}
use music_server_app.ClientDb.{ClntMsg, Mp3FileReq, add_job_to_queue}
use music_server_app.ClientDb.Slots.{get_client_request_for_downloading}
use music_server_app.ClientDb.Registry.{IsRegistry}
use music_server_app.ClientDb.Positions.{
  Assigned, Misses, get_client_request_for_downloading-Assigned,
}
use music_server_app.ResourceManager.{RManager, RmState, clnt_msg, rm_run_state}
use music_server_app.ResourceManager.Requests.{serv_client_request}
use music_server_app.ResourceManager.Effects.{IsProper, Served}
use music_server_app.ResourceManager.Served.{serv_client_request-Served}
use music_server_app.ResourceManager.Machine.{
  with_server, stop_juke_box, start_download, run_call_schedular, run_state_func, run_entry,
  run_machine, serv_request,
}
use music_server_app.ResourceManager.Diagram.{Follows, serv_request-Follows}

stop_juke_box-IsRegistry :
    (rm : RManager) (m : ClntMsg) → IsRegistry rm.server → IsRegistry (stop_juke_box rm m)
unfolding stop_juke_box
stop_juke_box-IsRegistry rm m r =
    elim (Bool-cases (not (m.clnt_data.msg_id == register_m) && rm.is_active == 1)) [
      | inl e ↦ rw e (record { sound = r.sound; vacant = r.vacant; distinct = r.distinct })
      | inr e ↦ rw e r
    ]

start_download-IsRegistry :
    (rm : RManager) (req : Option Mp3FileReq)
    → IsRegistry rm.server
    → IsRegistry (start_download rm req).server
unfolding start_download add_job_to_queue
start_download-IsRegistry rm none r = r
start_download-IsRegistry rm (some req) r = record {
  sound = r.sound;
  vacant = r.vacant;
  distinct = r.distinct;
}

pub run_call_schedular-IsRegistry :
    (rm : RManager)
    → IsRegistry rm.server
    → EndsUnless (Misses rm.server) (λ rm'. IsRegistry rm'.server) (run_call_schedular rm)
unfolding run_call_schedular
run_call_schedular-IsRegistry rm r =
    EndsUnless-bind (λ (req, s'). IsRegistry s' × Assigned rm.server s' req) _
      (get_client_request_for_downloading rm.server) _
      (get_client_request_for_downloading-Assigned r)
      (λ (req, s') v. start_download-IsRegistry (with_server rm s') req v.0)

-- The scheduler runs after a client's message.
abbrev pub Schedules : RmState → Type 0
Schedules RmState.idle = Unit {0}
Schedules RmState.playing = Unit {0}
Schedules _ = ⊥

-- The entries of the table for a client's message.
request_entry-IsRegistry :
    (state : RmState) (m : ClntMsg) (rm : RManager)
    → IsRegistry rm.server
    → EndsUnless
        (Schedules state × Misses rm.server)
        (λ rm'. IsRegistry rm'.server)
        (run_entry (rm_run_state state (clnt_msg m)) rm)
unfolding rm_run_state run_entry run_state_func
request_entry-IsRegistry RmState.idle m rm r =
    EndsUnless-same _ _ (λ bad. (tt, bad)) (λ bad. bad.1) (run_call_schedular-IsRegistry rm r)
request_entry-IsRegistry RmState.playing m rm r =
    EndsUnless-same _ _ (λ bad. (tt, bad)) (λ bad. bad.1) (run_call_schedular-IsRegistry rm r)
request_entry-IsRegistry RmState.downloading m rm r = ends (λ bad. bad.0) r
request_entry-IsRegistry RmState.playing_downloading m rm r = ends (λ bad. bad.0) r
request_entry-IsRegistry RmState.playing_downloaded m rm r = ends (λ bad. bad.0) r

-- Once the message has been served, the machine has the scheduler read out of bounds.
abbrev pub Overruns : RManager → ClntMsg → Type 0
Overruns rm m = Schedules rm.rm_state × Returns Misses (serv_client_request (stop_juke_box rm m) m)

request-IsRegistry :
    (rm : RManager) (m : ClntMsg) (content : List ℕ)
    → IsRegistry rm.server
    → IsProper m content
    → EndsUnless (Overruns rm m) (λ rm'. IsRegistry rm'.server) (serv_request rm (clnt_msg m))
unfolding serv_request run_machine
request-IsRegistry rm m content r p =
    let s = stop_juke_box rm m in
    let (s', e, v) =
      Returns-value (Served s m content) (serv_client_request s m)
        (serv_client_request-Served (stop_juke_box-IsRegistry rm m r) m content p) in
    rw e (request_entry-IsRegistry rm.rm_state m (with_server rm s') v.registry)

-- A proper message of a client is served to its end, in a server whose registry is in order: the
-- registry stays in order, and the machine follows an edge of the diagram. This fails only where the
-- machine calls the scheduler afterwards, with a free position, nothing downloaded yet and no request
-- that waits at the front of one of the first nine clients' lists: it then reads out of bounds.
pub serv_request_ends :
    (rm : RManager) (m : ClntMsg) (content : List ℕ)
    → IsRegistry rm.server
    → IsProper m content
    → EndsUnless
        (Overruns rm m)
        (λ rm'. IsRegistry rm'.server × Follows rm (clnt_msg m) rm')
        (serv_request rm (clnt_msg m))
serv_request_ends rm m content r p =
    EndsUnless-Ensures (λ rm'. IsRegistry rm'.server) (Follows rm (clnt_msg m))
      (serv_request rm (clnt_msg m)) (request-IsRegistry rm m content r p)
      (serv_request-Follows rm (clnt_msg m))
