-- ===== src/ResourceManager/Completed.antt =====
-- `handleDownloadComplete` of MusicServer/src/resourceManager.c: a download's file is ready now.
use music_server_app.Base.{
  ℕ, ◌<◌, ◌≡◌, ◌≢◌, refl, ap, inl, inr, Bool, true, false, arith, ltb, ◌==◌, Bool-cases, max_client,
  update-same, update-other,
}
use music_server_app.Base.Run.{Returns, Returns-bind, Returns-value, Returns-both}
use music_server_app.PlayList.{PlState, downloading, ready, same_state, set_play_list_status}
use music_server_app.PlayList.Invariant.{IsSound, last_client}
use music_server_app.PlayList.Promotion.{Promotion, set_play_list_status-Promotion_ready}
use music_server_app.PlayList.Soundness.{set_play_list_status-IsSound}
use music_server_app.ClientDb.{
  Server, Mp3FileReq, mp3_file_ready, set_scheduled, find_scheduled, find_from,
}
use music_server_app.ClientDb.Registry.{IsRegistry}
use music_server_app.ClientDb.Slots.{
  with_status, set_slot_status, is_downloading_slot, download_ready, finish_download,
  set_downloading_status,
}
use music_server_app.ResourceManager.Machine.{handle_download}

-- The first of the two positions that pass the test.
pub data IsFirstSlot (test : ℕ → Bool) : ℕ → Type 0 where
  first : test 0 ≡ true → IsFirstSlot test 0
  second : test 0 ≡ false → test 1 ≡ true → IsFirstSlot test 1

-- A file that is ready is a client's whose number is in range.
abbrev pub InRange : Server → Type 0
InRange s =
    (i : ℕ) → same_state (s.sch_data i).status ready ≡ true → (s.sch_data i).client_id < max_client

-- A request has been downloaded before.
abbrev pub Started : Server → Type 0
Started s = s.pl.current_downloading < last_client

-- The first of the two positions that downloads the request has its file ready now, and the client's
-- first request that is downloaded is ready; or no position downloads the request, and nothing has
-- changed.
pub data Completed (s : Server) (req : Mp3FileReq) (s' : Server) : Type 0 where
  unknown :
      is_downloading_slot s req 0 ≡ false
      → is_downloading_slot s req 1 ≡ false
      → s' ≡ s
      → Completed s req s'
  completed :
      {i : ℕ}
      → IsFirstSlot (is_downloading_slot s req) i
      → (s'.sch_data i).status ≡ ready
      → ((j : ℕ) → j ≢ i → s'.sch_data j ≡ s.sch_data j)
      → Promotion downloading ready s.pl req.clnt_id s'.pl
      → Completed s req s'

pub set_slot_status-IsRegistry :
    {s : Server} (i : ℕ) (state : PlState) → IsRegistry s → IsRegistry (set_slot_status s i state)
unfolding set_slot_status set_scheduled
set_slot_status-IsRegistry i state r = record {
  sound = r.sound;
  vacant = r.vacant;
  distinct = r.distinct;
}

pub find_scheduled-IsFirstSlot :
    (test : ℕ → Bool) → ltb (find_scheduled test) 2 ≡ true → IsFirstSlot test (find_scheduled test)
unfolding find_scheduled find_from
find_scheduled-IsFirstSlot test found = elim (Bool-cases (test 0)) [
  | inl at_first ↦ rw at_first (first at_first)
  | inr not_first ↦ elim (Bool-cases (test 1)) [
    | inl at_second ↦ rw (not_first, at_second) (second not_first at_second)
    | inr not_second ↦ absurd (
        let none_found : ltb 2 2 ≡ true = rw (not_first, not_second) at found in
        ground (arith, none_found))
  ]
]

find_scheduled-none :
    (test : ℕ → Bool) → ltb (find_scheduled test) 2 ≡ false → (test 0 ≡ false) × (test 1 ≡ false)
unfolding find_scheduled find_from
find_scheduled-none test missing = elim (Bool-cases (test 0)) [
  | inl at_first ↦
      absurd (let here : ltb 0 2 ≡ false = rw at_first at missing in ground (arith, here))
  | inr not_first ↦ elim (Bool-cases (test 1)) [
    | inl at_second ↦
        absurd (
          let here : ltb 1 2 ≡ false = rw (not_first, at_second) at missing in ground (arith, here))
    | inr not_second ↦ (not_first, not_second)
  ]
]

pub IsFirstSlot-passes : {test : ℕ → Bool} {i : ℕ} → IsFirstSlot test i → test i ≡ true
IsFirstSlot-passes (first e) = e
IsFirstSlot-passes (second miss e) = e

-- What the handling of the message leaves, before the machine runs.
pub record Handled (s : Server) (req : Mp3FileReq) (s' : Server) : Type 0 where
  pub registry : IsRegistry s'
  pub range : InRange s'
  pub begun : Started s'
  pub done : Completed s req s'

download_ready-Handled :
    (s : Server) (i : ℕ) (req : Mp3FileReq)
    → IsRegistry s
    → InRange s
    → Started s
    → req.clnt_id < max_client
    → IsFirstSlot (is_downloading_slot s req) i
    → Returns (Handled s req) (download_ready s i req)
unfolding download_ready set_slot_status set_scheduled
download_ready-Handled s i req r range begun near here =
    let passes = IsFirstSlot-passes here in
    let owner : (s.sch_data i).client_id ≡ req.clnt_id = ground (arith, passes) in
    Returns-bind (λ (_, pl'). IsSound pl' × Promotion downloading ready s.pl req.clnt_id pl') _
      (set_play_list_status s.pl req.clnt_id ready) _
      (Returns-both (λ (_, pl'). IsSound pl')
        (λ (_, pl'). Promotion downloading ready s.pl req.clnt_id pl')
        (set_play_list_status s.pl req.clnt_id ready)
        (set_play_list_status-IsSound r.sound req.clnt_id ready near)
        (set_play_list_status-Promotion_ready r.sound req.clnt_id near))
      λ v (sound, moved). record {
        registry = record { sound = sound; vacant = r.vacant; distinct = r.distinct };
        range = λ j is_ready. elim (Bool-cases (j == i)) [
          | inl same ↦ rw same (omega (arith, owner, near))
          | inr other ↦ rw other (range j (rw other at is_ready))
        ];
        begun = omega (arith, begun, moved.same_current);
        done =
            completed here
              (ap (λ d. d.status) (update-same s.sch_data i (with_status (s.sch_data i) ready)))
              (λ j ne. update-other s.sch_data i (with_status (s.sch_data i) ready) ne) moved;
      }

pub handle_download-Handled :
    (s : Server) (req : Mp3FileReq)
    → IsRegistry s
    → InRange s
    → Started s
    → req.clnt_id < max_client
    → Returns (Handled s req) (handle_download mp3_file_ready s req)
unfolding handle_download set_downloading_status finish_download
handle_download-Handled s req r range begun near =
    let resp : Mp3FileReq = record req { file_state = mp3_file_ready } in
    let test : ℕ → Bool = is_downloading_slot s resp in
    elim (Bool-cases (ltb (find_scheduled test) 2)) [
      | inr missing ↦
          let (not_first, not_second) = find_scheduled-none test missing in
          rw missing (record {
            registry = r;
            range = range;
            begun = begun;
            done = unknown not_first not_second refl;
          })
      | inl found ↦
          let (s', e, h) =
            Returns-value (Handled s resp) (download_ready s (find_scheduled test) resp) (
              download_ready-Handled s (find_scheduled test) resp r range begun near
                (find_scheduled-IsFirstSlot test found)) in
          rw (found, e)
            (record {
              registry = h.registry;
              range = h.range;
              begun = h.begun;
              done = same_request s' h.done;
            })
    ]
  where
    same_request :
        (s' : Server)
        → Completed s (record req { file_state = mp3_file_ready }) s'
        → Completed s req s'
    same_request s' (unknown a b e) = unknown a b e
    same_request s' (completed (first e) is others moved) = completed (first e) is others moved
    same_request s' (completed (second miss e) is others moved) =
        completed (second miss e) is others moved
