-- ===== src/Threads.antt =====
-- Common/src/gthreads.c: the pool of worker threads as steps that come in any order.
pub mod Fifo
pub mod Wakeups
use music_server_app.Base.{ℕ, zero, suc, ◌<◌, ◌≡◌, Option, none, some, List, [], ◌∷◌, ◌++◌, update}
use music_server_app.NodeList.{NodeList}
use music_server_app.Queue.{init_queue, enqueue, dequeue}

abbrev pub max_worker_thread : ℕ
max_worker_thread = 4

module _ {ℓ} (A : Type ℓ) where
  -- Where `workerRoutine` is: before `pthread_cond_wait`, in it, past it but before `dequeue`, or in a
  -- job. `workerLock` is held only for `dequeue`, one action on what is shared.
  pub data Worker : Type ℓ where
    asking waiting woken : Worker
    at_work : A → Worker

  -- `broadcasts` counts the calls of `addJobToQueue` that have entered a job and not yet called
  -- `pthread_cond_broadcast`. All jobs that were added, and all that were started, are kept in order.
  pub record Pool : Type ℓ where
    pub work_queue : NodeList A
    pub workers : ℕ → Worker
    pub broadcasts : ℕ
    pub added : List A
    pub started : List A

module _ {ℓ} {A : Type ℓ} where
  unfoldable pub set_worker : Pool A → ℕ → Worker A → Pool A
  set_worker s w at = record s { workers = update s.workers w at }

  -- `createThreadPool`
  unfoldable pub create_thread_pool : Pool A
  create_thread_pool = record {
    work_queue = init_queue;
    workers = λ w. asking;
    broadcasts = 0;
    added = [];
    started = [];
  }

  -- `addJobToQueue` before the broadcast.
  unfoldable pub add_job : Pool A → A → Pool A
  add_job s job = record s {
    work_queue = (enqueue s.work_queue job).1;
    broadcasts = suc s.broadcasts;
    added = s.added ++ (job ∷ []);
  }

  abbrev pub wake : Worker A → Worker A
  wake asking = asking
  wake waiting = woken
  wake woken = woken
  wake (at_work job) = at_work job

  unfoldable pub broadcast : Pool A → ℕ → Pool A
  broadcast s left = record s { workers = λ w. wake (s.workers w); broadcasts = left }

  unfoldable pub given : Pool A → ℕ → Option A × NodeList A → Pool A
  unfolding set_worker
  given s w (none, q) = record (set_worker s w asking) { work_queue = q }
  given s w (some job, q) = record (set_worker s w (at_work job)) {
    work_queue = q;
    started = s.started ++ (job ∷ []);
  }

  -- `dequeue`, and on with the job, or to the top of the loop.
  unfoldable pub take_job : Pool A → ℕ → Pool A
  unfolding given
  take_job s w = given s w (dequeue s.work_queue)

  -- One action of a thread. POSIX lets `pthread_cond_wait` return without a broadcast.
  pub data Step (s : Pool A) : Pool A → Type ℓ where
    add : (job : A) → Step s (add_job s job)
    signal : {left : ℕ} → s.broadcasts ≡ suc left → Step s (broadcast s left)
    wait : (w : ℕ) → w < max_worker_thread → s.workers w ≡ asking → Step s (set_worker s w waiting)
    spurious :
        (w : ℕ) → w < max_worker_thread → s.workers w ≡ waiting → Step s (set_worker s w woken)
    begin : (w : ℕ) → w < max_worker_thread → s.workers w ≡ woken → Step s (take_job s w)
    finish :
        (w : ℕ) (job : A)
        → w < max_worker_thread
        → s.workers w ≡ at_work job
        → Step s (take_job s w)

  pub data Reach (s : Pool A) : Pool A → Type ℓ where
    here : Reach s s
    next : {s' s'' : Pool A} → Reach s s' → Step s' s'' → Reach s s''
