-- ===== src/Examples/Queues.antt =====
-- A queue and a stack of Common/src/queue.c.
use music_server_app.Base.{ℕ, ◌≡◌, List, [], ◌∷◌, ◌++◌}
use music_server_app.NodeList.{init_list}
use music_server_app.Queue.{init_queue, Call, put, get, run_calls}
use music_server_app.Queue.Order.{run_calls-puts}

abbrev calls : List (Call ℕ)
calls = put 4 ∷ put 7 ∷ get ∷ get ∷ get ∷ put 9 ∷ []

run_calls-puts_example :
    (run_calls calls init_queue).0 ++ (run_calls calls init_queue).1.nodes ≡ 4 ∷ 7 ∷ 9 ∷ []
unfolding init_queue init_list
run_calls-puts_example = run_calls-puts calls init_queue
