-- ===== src/Examples/Pools.antt =====
-- The pool of worker threads at concrete runs.
use music_server_app.Base.{ℕ, ◌≡◌, ◌⊎◌, refl, ◌++◌, arith}
use music_server_app.NodeList.{init_list, add_last, delete_first}
use music_server_app.Queue.{init_queue, enqueue, dequeue}
use music_server_app.Threads.{
  waiting, Pool, create_thread_pool, set_worker, add_job, broadcast, given, take_job, add, signal,
  wait, begin, finish, Reach, here, next,
}
use music_server_app.Threads.Fifo.{Reach-InOrder}
use music_server_app.Threads.Wakeups.{
  IsAwake, is_woken, Front, IsLost, IsAwake-serves, IsLost-wakeup,
}

-- Worker 0 waits when the job 7 is added, and is woken.
abbrev rested : Pool ℕ
rested = set_worker create_thread_pool 0 waiting

abbrev roused : Pool ℕ
roused = broadcast (add_job rested 7) 0

roused-Reach : Reach create_thread_pool roused
unfolding create_thread_pool set_worker add_job
roused-Reach = next (next (next here (wait 0 (omega arith) refl)) (add 7)) (signal refl)

-- It takes the job, and finds the queue empty behind it.
abbrev served : Pool ℕ
served = take_job (take_job roused 0) 0

served-Reach : Reach roused served
unfolding create_thread_pool set_worker add_job broadcast take_job given init_queue init_list
    enqueue dequeue add_last delete_first
served-Reach = next (next here (begin 0 (omega arith) refl)) (finish 0 7 (omega arith) refl)

Reach-InOrder_example : roused.started ++ roused.work_queue.nodes ≡ roused.added
Reach-InOrder_example = Reach-InOrder roused-Reach

IsAwake-serves_example : IsAwake (served.workers 0) ⊎ Front roused.added served.started
unfolding create_thread_pool set_worker add_job broadcast
IsAwake-serves_example = IsAwake-serves 0 roused-Reach is_woken served-Reach

IsLost-wakeup_example : (s : Pool ℕ) × IsLost 7 s
IsLost-wakeup_example = IsLost-wakeup 7
