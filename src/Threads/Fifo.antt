-- ===== src/Threads/Fifo.antt =====
-- The order in which the pool of Common/src/gthreads.c starts its jobs.
use mathlib.Core.List.{append_assoc}
use music_server_app.Base.{ℕ, ◌≡◌, refl, sym, ap, ◌∙◌, List, [], ◌∷◌, ◌++◌}
use music_server_app.NodeList.{init_list, add_last, delete_first}
use music_server_app.Queue.{init_queue, enqueue, dequeue}
use music_server_app.Threads.{
  Pool, create_thread_pool, set_worker, add_job, broadcast, given, take_job, Step, add, signal,
  wait, spurious, begin, finish, Reach, here, next,
}

module _ {ℓ} {A : Type ℓ} where
  -- The jobs that were started and then those in the queue are those that were added.
  abbrev pub InOrder : Pool A → Type ℓ
  InOrder s = s.started ++ s.work_queue.nodes ≡ s.added

  add_job-InOrder : (s : Pool A) (job : A) → InOrder s → InOrder (add_job s job)
  unfolding add_job enqueue add_last
  add_job-InOrder s job e =
      sym (append_assoc s.started s.work_queue.nodes (job ∷ [])) ∙ ap (λ l. l ++ (job ∷ [])) e

  pub take_job-InOrder : (s : Pool A) (w : ℕ) → InOrder s → InOrder (take_job s w)
  unfolding take_job given set_worker dequeue delete_first
  take_job-InOrder s w e = go s.work_queue.nodes s.work_queue.total_node refl
    where
      go :
          (xs : List A) (total : ℕ)
          → s.work_queue.nodes ≡ xs
          → InOrder
              (take_job (record s { work_queue = record { nodes = xs; total_node = total } }) w)
      go [] total is = ap (λ l. s.started ++ l) (sym is) ∙ e
      go (x ∷ xs) total is =
          append_assoc s.started (x ∷ []) xs ∙ ap (λ l. s.started ++ l) (sym is) ∙ e

  pub Step-InOrder : {s s' : Pool A} → Step s s' → InOrder s → InOrder s'
  unfolding set_worker broadcast
  Step-InOrder {s} (add job) e = add_job-InOrder s job e
  Step-InOrder (signal is) e = e
  Step-InOrder (wait w near is) e = e
  Step-InOrder (spurious w near is) e = e
  Step-InOrder {s} (begin w near is) e = take_job-InOrder s w e
  Step-InOrder {s} (finish w job near is) e = take_job-InOrder s w e

  -- Whatever the threads do, and in whatever order, the jobs that the workers have started, and then
  -- those in the queue, are the jobs that were added, in the order in which they were added.
  pub Reach-InOrder : {s : Pool A} → Reach create_thread_pool s → InOrder s
  unfolding create_thread_pool init_queue init_list
  Reach-InOrder here = refl
  Reach-InOrder (next r step) = Step-InOrder step (Reach-InOrder r)
