-- ===== src/Examples/Deletions.antt =====
-- Requests that leave a play list of MusicServer/src/playlist.c, or change their state.
use music_server_app.Base.{◌≡◌, refl, [], ◌∷◌, arith, Outcome, List}
use music_server_app.Base.Run.{Run, ok, fault, Returns}
use music_server_app.PlayList.{
  Request, PlayList, downloading, ready, playing, init_play_list, put_list, delete_downloading,
  downloading_check, playing_check, delete_playing, set_play_list_status, promote, promote_in, lock,
}
use music_server_app.PlayList.Invariant.{
  IsSound, init_play_list-IsSound, put_list-IsSound, downloads-IsSound, plays-IsSound,
  resize-IsSound,
}
use music_server_app.PlayList.Deletion.{
  Deleted, Counted, delete_downloading-Deleted, delete_playing-Counted, delete_playing_misdirected,
}
use music_server_app.Examples.World.{one_request}

abbrev three : List Request
three =
    record one_request { pl_status = playing }
    ∷ record one_request { token = 6; pl_status = downloading }
    ∷ one_request
    ∷ []

-- Client 3 has a song that plays, one that is downloaded and one that waits.
busy : PlayList
unfolding init_play_list put_list
busy = record (put_list init_play_list 3 (record { nodes = three; total_node = 3 })) {
  play_list_size = 3;
  current_downloading = 3;
  current_playing = 3;
}

busy-IsSound : IsSound busy
unfolding busy init_play_list put_list
busy-IsSound =
    let placed =
      put_list-IsSound 3 (record { nodes = three; total_node = 3 }) init_play_list-IsSound
        ((refl, (refl, (refl, tt))), λ e. absurd (omega (arith, e))) in
    resize-IsSound 3 (plays-IsSound 3 (downloads-IsSound 3 placed (omega arith)) (omega arith))

delete_downloading-Deleted_example :
    Returns
      (λ (res, pl'). Deleted downloading_check busy busy.current_downloading res pl')
      (delete_downloading busy)
unfolding busy
delete_downloading-Deleted_example = delete_downloading-Deleted busy-IsSound (omega arith)

delete_playing-Counted_example :
    Returns (Counted playing_check busy busy.current_playing) (delete_playing busy)
unfolding busy
delete_playing-Counted_example = delete_playing-Counted busy-IsSound (omega arith)

-- The download of client 3 is ready while client 5's song plays.
two_clients : PlayList
unfolding busy put_list
two_clients =
    put_list busy 5
      (record { nodes = record one_request { id = 5; pl_status = playing } ∷ []; total_node = 1 })

two_clients-IsSound : IsSound two_clients
unfolding two_clients
two_clients-IsSound = put_list-IsSound 5 _ busy-IsSound ((refl, tt), λ e. absurd (omega (arith, e)))

abbrev after : PlayList → Run (Outcome × PlayList) → PlayList
after pl (ok (res, pl')) = pl'
after pl (fault e) = pl

delete_playing_misdirected_example :
    Returns
      (λ (_, pl2). pl2.p_list 5 ≡ two_clients.p_list 5)
      (delete_playing (after two_clients (set_play_list_status two_clients 3 ready)))
unfolding two_clients busy put_list init_play_list set_play_list_status promote_in promote lock
delete_playing_misdirected_example =
    delete_playing_misdirected two_clients-IsSound 3 5 (omega arith) (omega arith) ready refl
