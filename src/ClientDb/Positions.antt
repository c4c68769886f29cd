-- ===== src/ClientDb/Positions.antt =====
-- `getClientRequestForDownloadingFunc` of MusicServer/src/clientdb.c: how a request gets one of the two
-- positions.
use music_server_app.Base.{
  ℕ, ◌+◌, ◌%◌, ◌<◌, ◌≡◌, ◌≢◌, refl, ap, inl, inr, true, false, Option, none, some, arith,
  Bool-cases, lt→ltb, max_client, in_array, update-same, update-other,
}
use music_server_app.Base.Run.{
  Run, ok, out_of_bounds, ◌>>◌, require, Returns, EndsUnless, ends, EndsUnless-bind,
  EndsUnless-same,
}
use music_server_app.PlayList.{
  PlayList, Found, unset, downloading, waiting, same_state, mark_downloading,
  get_one_for_downloading,
}
use music_server_app.PlayList.Invariant.{IsSound, last_client}
use music_server_app.PlayList.Schedule.{Chosen, Overreads}
use music_server_app.PlayList.Soundness.{Handed, Picked, get_one_for_downloading-Picked}
use music_server_app.ClientDb.{Server, Scheduled, client_request, Mp3FileReq, set_scheduled}
use music_server_app.ClientDb.Slots.{occupy_slot, get_client_request_for_downloading}
use music_server_app.ClientDb.Registry.{IsRegistry}
use music_server_app.ClientDb.Queueing.{relist-IsRegistry}

-- The position that is looked at has the request of client and token now.
pub record Occupied (s : Server) (client token : ℕ) (req : Mp3FileReq) (s' : Server) : Type 0 where
  pub for_client : req.clnt_id ≡ client
  pub for_token : req.request_id ≡ token
  pub from_address : req.ipaddress ≡ s.client_ip client
  pub same_file : (s'.sch_data s.schedule_index).file_name ≡ req.file_name
  pub holds_client : (s'.sch_data s.schedule_index).client_id ≡ client
  pub holds_token : (s'.sch_data s.schedule_index).req_token ≡ token
  pub is_downloading : (s'.sch_data s.schedule_index).status ≡ downloading
  pub elsewhere : (i : ℕ) → i ≢ s.schedule_index → s'.sch_data i ≡ s.sch_data i
  pub next_index : s'.schedule_index ≡ (s.schedule_index + 1) % 2

-- What a call does, by its answer.
pub data Assigned (s s' : Server) : Option Mp3FileReq → Type 0 where
  occupied_yet :
      same_state (s.sch_data s.schedule_index).status unset ≡ false → s' ≡ s → Assigned s s' none
  none_waits : Chosen waiting s.pl none → s' ≡ s → Assigned s s' none
  assigned :
      {f : Found} {req : Mp3FileReq}
      → same_state (s.sch_data s.schedule_index).status unset ≡ true
      → Chosen waiting s.pl (some f)
      → s'.pl ≡ (mark_downloading s.pl (some f)).1
      → Occupied s f.request.id f.request.token req s'
      → Assigned s s' (some req)

occupy_slot-Occupied :
    (s : Server) (pl' : PlayList) (client token : ℕ)
    → Occupied s client token
        (occupy_slot (record s { pl = pl' }) client token).0
        (occupy_slot (record s { pl = pl' }) client token).1
unfolding occupy_slot set_scheduled
occupy_slot-Occupied s pl' client token =
    let d : Scheduled = record (s.sch_data s.schedule_index) {
      client_id = client;
      req_token = token;
      status = downloading;
      file_name = client_request client token;
    } in
    let at = update-same s.sch_data s.schedule_index d in
    record {
      for_client = refl;
      for_token = refl;
      from_address = refl;
      same_file = ap (λ q. q.file_name) at;
      holds_client = ap (λ q. q.client_id) at;
      holds_token = ap (λ q. q.req_token) at;
      is_downloading = ap (λ q. q.status) at;
      elsewhere = λ i ne. update-other s.sch_data s.schedule_index d ne;
      next_index = refl;
    }

occupy_slot_keeps_list : (s : Server) (client token : ℕ) → (occupy_slot s client token).1.pl ≡ s.pl
unfolding occupy_slot set_scheduled
occupy_slot_keeps_list s client token = refl

occupy_slot-IsRegistry :
    {s : Server} (client token : ℕ) → IsRegistry s → IsRegistry (occupy_slot s client token).1
unfolding occupy_slot set_scheduled
occupy_slot-IsRegistry client token r = record {
  sound = r.sound;
  vacant = r.vacant;
  distinct = r.distinct;
}

-- What comes after the play list's answer.
abbrev take_position : Server → Option (ℕ × ℕ) × PlayList → Run (Option Mp3FileReq × Server)
take_position s (chosen, pl') = elim chosen [
  | none ↦ ok (none, record s { pl = pl' })
  | some (client, token) ↦ do
    require (in_array client) out_of_bounds
    let (req, s'') = occupy_slot (record s { pl = pl' }) client token
    ok (some req, s'')
]

module _ {s : Server} (r : IsRegistry s)
    (free : same_state (s.sch_data s.schedule_index).status unset ≡ true) where
  take_position-Assigned :
      (found : Option Found) (a : Option (ℕ × ℕ) × PlayList)
      → Chosen waiting s.pl found
      → a ≡ mark_downloading s.pl found
      → Handed a.0
      → IsSound a.1
      → Returns (λ (req, s'). IsRegistry s' × Assigned s s' req) (take_position s a)
  unfolding mark_downloading
  take_position-Assigned none a choice marked handed sound = rw marked (r, none_waits choice refl)
  take_position-Assigned (some f) a choice marked handed sound =
      let served : f.request.id < last_client = rw marked at handed in
      let after : IsSound (mark_downloading s.pl (some f)).1 = rw marked at sound in
      let s1 : Server = record s { pl = (mark_downloading s.pl (some f)).1 } in
      rw (marked, lt→ltb f.request.id max_client (omega (arith, served)))
        (
          occupy_slot-IsRegistry f.request.id f.request.token (relist-IsRegistry s1.pl r after),
          assigned free choice (occupy_slot_keeps_list s1 f.request.id f.request.token)
              (occupy_slot-Occupied s s1.pl f.request.id f.request.token),
        )

-- The next position is free, and the scheduler reads out of bounds.
abbrev pub Misses : Server → Type 0
Misses s = (same_state (s.sch_data s.schedule_index).status unset ≡ true) × Overreads waiting s.pl

-- In a server whose registry is in order, where the next position that
-- `getClientRequestForDownloadingFunc` looks at is free and the scheduler finds a request that waits,
-- that request is downloaded now and has the position, and the other position comes next. Where the
-- position is free, nothing has been downloaded yet and no list of the first nine clients begins with
-- a request that waits, it reads out of bounds. Otherwise it ends, and nothing changes.
pub get_client_request_for_downloading-Assigned :
    {s : Server}
    → IsRegistry s
    → EndsUnless
        (Misses s)
        (λ (req, s'). IsRegistry s' × Assigned s s' req)
        (get_client_request_for_downloading s)
unfolding get_client_request_for_downloading
get_client_request_for_downloading-Assigned {s} r =
    elim (Bool-cases (same_state (s.sch_data s.schedule_index).status unset)) [
      | inr busy ↦ rw busy (ends (λ bad. let never = bad.0 in cc) (r, occupied_yet busy refl))
      | inl free ↦ rw free (
          EndsUnless-same _ _ (λ bad. (refl, bad)) (λ bad. bad.1)
            (EndsUnless-bind (λ (handed, pl'). Picked s.pl handed pl' × Handed handed × IsSound pl')
              _ (get_one_for_downloading s.pl) (take_position s)
              (get_one_for_downloading-Picked r.sound)
              (λ a (p, handed, sound).
                take_position-Assigned r free p.found a p.choice p.marked handed sound)))
    ]
