-- ===== src/Examples/PlayLists.antt =====
-- Play lists of MusicServer/src/playlist.c.
use music_server_app.Base.{◌≡◌, inl, refl, some, [], ◌∷◌, arith, All}
use music_server_app.Base.Run.{ok, fault, out_of_bounds, Returns, EndsUnless}
use music_server_app.NodeList.{NodeList, init_list, add_last}
use music_server_app.PlayList.{
  Request, PlayList, waiting, init_play_list, get_one_for_downloading, play_list_scheduler,
  add_to_play_list, put_list, lock, play_list_scheduler, first_client, search_from, scan_clients,
  request_at, fall_back, mark_downloading,
}
use music_server_app.PlayList.Invariant.{IsSound, last_client, init_play_list-IsSound}
use music_server_app.PlayList.Schedule.{Overreads, Chosen, play_list_scheduler-Chosen}
use music_server_app.PlayList.Calls.{
  add, perform, perform-IsSound, Reach, start, call, tenth_client_starves,
}
use music_server_app.PlayList.Soundness.{Handed}
use music_server_app.Examples.World.{play_list_of, one_request, other_request, song_bytes}

play_list_scheduler-Chosen_example :
    EndsUnless
      (Overreads waiting (play_list_of (one_request ∷ [])))
      (Chosen waiting (play_list_of (one_request ∷ [])))
      (play_list_scheduler (play_list_of (one_request ∷ [])) waiting)
play_list_scheduler-Chosen_example =
    play_list_scheduler-Chosen waiting (play_list_of (one_request ∷ [])) (inl refl)

perform-IsSound_example : Returns IsSound (perform init_play_list (add 9 1 4 song_bytes))
perform-IsSound_example =
    perform-IsSound init_play_list (add 9 1 4 song_bytes) init_play_list-IsSound (omega arith)

-- The tenth client's request, alone in the play list.
tenth_only : PlayList
unfolding init_play_list put_list add_last
tenth_only =
    record (put_list init_play_list 9
      (add_last init_list (record one_request { id = 9; token = 1 }))) { play_list_size = 1 }

tenth_only-Reach : Reach tenth_only
unfolding tenth_only perform add_to_play_list lock init_list
tenth_only-Reach = call (add 9 1 4 song_bytes) start (omega arith) refl

tenth_client_starves_example :
    EndsUnless
      (Overreads waiting tenth_only)
      (λ (handed, _). Handed handed)
      (get_one_for_downloading tenth_only)
    × All (λ r. r.pl_status ≡ waiting) (tenth_only.p_list last_client).nodes
tenth_client_starves_example = tenth_client_starves tenth_only-Reach

-- Clients 3 and 5 have a request, and the turn is the fifth client's first.
fifth_first :
    play_list_scheduler (play_list_of (one_request ∷ [])) waiting
    ≡ ok (some (record { client = 5; place = 0; request = other_request }))
unfolding play_list_scheduler first_client search_from scan_clients request_at fall_back
fifth_first = refl

-- A request waits and no other client has one.
tenth_only_overreads : get_one_for_downloading tenth_only ≡ fault out_of_bounds
unfolding tenth_only get_one_for_downloading lock play_list_scheduler first_client search_from
    scan_clients request_at init_list fall_back mark_downloading init_play_list put_list add_last
tenth_only_overreads = refl

two_requests : NodeList Request
two_requests = record {
  nodes = one_request ∷ record one_request { token = 6 } ∷ [];
  total_node = 2;
}
