-- ===== src/Threads/Wakeups.antt =====
-- Which workers of Common/src/gthreads.c are woken, and which jobs they then start.
use mathlib.Core.List.{append-nil, append_assoc}
use mathlib.Core.Path.{subst}
use music_server_app.Base.{
  ℕ, zero, suc, ◌<◌, ◌≡◌, ◌⊎◌, inl, inr, refl, sym, ap, ◌∙◌, arith, List, [], ◌∷◌, ◌++◌, ◌==◌,
  update, Bool-cases,
}
use music_server_app.NodeList.{init_list, add_last, delete_first}
use music_server_app.Queue.{init_queue, enqueue, dequeue}
use music_server_app.Threads.{
  Worker, asking, waiting, woken, at_work, Pool, create_thread_pool, max_worker_thread, set_worker,
  add_job, wake, broadcast, given, take_job, Step, add, signal, wait, spurious, begin, finish,
  Reach, here, next,
}
use music_server_app.Threads.Fifo.{InOrder, Step-InOrder, Reach-InOrder}

module _ {ℓ} {A : Type ℓ} where
  -- A worker that will call `dequeue` again before it sleeps.
  pub data IsAwake : Worker A → Type ℓ where
    is_woken : IsAwake woken
    works : (job : A) → IsAwake (at_work job)

  -- `xs` is the front of `ys`.
  abbrev pub Front : List A → List A → Type ℓ
  Front xs ys = (rest : List A) × (xs ++ rest ≡ ys)

  Front-append : (xs ys : List A) (zs : List A) → Front xs ys → Front xs (ys ++ zs)
  Front-append xs ys zs (rest, e) =
      (rest ++ zs, sym (append_assoc xs rest zs) ∙ ap (λ l. l ++ zs) e)

  -- All jobs of the list have been added, and `w` is awake or they have been started.
  pub record Serves (w : ℕ) (jobs : List A) (s : Pool A) : Type ℓ where
    pub known : Front jobs s.added
    pub on_it : IsAwake (s.workers w) ⊎ Front jobs s.started

  -- After a call of `dequeue`
  take_job-Serves :
      (w : ℕ) (jobs : List A) (s : Pool A) (v : ℕ)
      → InOrder s
      → Serves w jobs s
      → Serves w jobs (take_job s v)
  unfolding take_job given set_worker dequeue delete_first
  take_job-Serves w jobs s v order k = go s.work_queue.nodes s.work_queue.total_node refl
    where
      go :
          (xs : List A) (total : ℕ)
          → s.work_queue.nodes ≡ xs
          → Serves w jobs
              (take_job (record s { work_queue = record { nodes = xs; total_node = total } }) v)
      go [] total is =
          let all : s.added ≡ s.started =
            sym order ∙ ap (λ l. s.started ++ l) is ∙ append-nil s.started in
          record { known = k.known; on_it = inr (k.known.0, k.known.1 ∙ all) }
      go (x ∷ xs) total is = record {
        known = k.known;
        on_it = elim (Bool-cases (w == v)) [
          | inl same ↦ rw same (inl (works x))
          | inr other ↦ rw other (elim k.on_it [
            | inl awake ↦ inl awake
            | inr done ↦ inr (Front-append jobs s.started (x ∷ []) done)
          ])
        ];
      }

  -- A worker that is awake stays so where another state is set.
  set_worker-Serves :
      (w : ℕ) (jobs : List A) (s : Pool A) (v : ℕ) (at : Worker A)
      → ¬ IsAwake (s.workers v)
      → Serves w jobs s
      → Serves w jobs (set_worker s v at)
  unfolding set_worker
  set_worker-Serves w jobs s v at asleep k = record {
    known = k.known;
    on_it = elim k.on_it [
      | inr done ↦ inr done
      | inl awake ↦ elim (Bool-cases (w == v)) [
        | inl same ↦
            let e : w ≡ v = ground (arith, same) in
            absurd (asleep (subst (λ i. IsAwake (s.workers i)) e awake))
        | inr other ↦ rw other (inl awake)
      ]
    ];
  }

  wake-IsAwake : (at : Worker A) → IsAwake at → IsAwake (wake at)
  wake-IsAwake _ is_woken = is_woken
  wake-IsAwake _ (works job) = works job

  Step-Serves :
      (w : ℕ) (jobs : List A) {s s' : Pool A}
      → Step s s'
      → InOrder s
      → Serves w jobs s
      → Serves w jobs s'
  unfolding add_job broadcast
  Step-Serves w jobs {s} (add job) order k = record {
    known = Front-append jobs s.added (job ∷ []) k.known;
    on_it = k.on_it;
  }
  Step-Serves w jobs {s} (signal is) order k = record {
    known = k.known;
    on_it = elim k.on_it [
      | inl awake ↦ inl (wake-IsAwake (s.workers w) awake)
      | inr done ↦ inr done
    ];
  }
  Step-Serves w jobs {s} (wait v near is) order k =
      set_worker-Serves w jobs s v waiting (λ awake. elim (subst IsAwake is awake) [ ]) k
  Step-Serves w jobs {s} (spurious v near is) order k =
      set_worker-Serves w jobs s v woken (λ awake. elim (subst IsAwake is awake) [ ]) k
  Step-Serves w jobs {s} (begin v near is) order k = take_job-Serves w jobs s v order k
  Step-Serves w jobs {s} (finish v job near is) order k = take_job-Serves w jobs s v order k

  Reach-Serves :
      (w : ℕ) (jobs : List A) {s s' : Pool A}
      → Reach create_thread_pool s
      → Reach s s'
      → Serves w jobs s
      → InOrder s' × Serves w jobs s'
  Reach-Serves w jobs start here k = (Reach-InOrder start, k)
  Reach-Serves w jobs start (next r step) k =
      let (order, served) = Reach-Serves w jobs start r k in
      (Step-InOrder step order, Step-Serves w jobs step order served)

  -- A worker that is awake starts jobs until it has found the queue empty: in any run from there on, it
  -- is still awake, or every job that had been added before has been started.
  pub IsAwake-serves :
      (w : ℕ) {s s' : Pool A}
      → Reach create_thread_pool s
      → IsAwake (s.workers w)
      → Reach s s'
      → IsAwake (s'.workers w) ⊎ Front s.added s'.started
  IsAwake-serves w {s} start awake r =
      (Reach-Serves w s.added start r
        (record { known = ([], append-nil s.added); on_it = inl awake })).1.on_it

  -- Every worker waits, and no broadcast is due.
  pub record Asleep (s : Pool A) : Type ℓ where
    pub all_wait : (w : ℕ) → w < max_worker_thread → s.workers w ≡ waiting
    pub none_due : s.broadcasts ≡ 0

  -- From here on, only a new job or a spurious wake-up comes.
  Asleep-only :
      {s s' : Pool A}
      → Asleep s
      → Step s s'
      → ((job : A) × (s' ≡ add_job s job)) ⊎ ((w : ℕ) × (s' ≡ set_worker s w woken))
  Asleep-only a (add job) = inl (job, refl)
  Asleep-only a (signal is) = absurd (omega (arith, is, a.none_due))
  Asleep-only a (wait w near is) =
      absurd (let both : waiting ≡ asking = sym (a.all_wait w near) ∙ is in cc)
  Asleep-only a (spurious w near is) = inr (w, refl)
  Asleep-only a (begin w near is) =
      absurd (let both : waiting ≡ woken = sym (a.all_wait w near) ∙ is in cc)
  Asleep-only a (finish w job near is) =
      absurd (let both : waiting ≡ at_work job = sym (a.all_wait w near) ∙ is in cc)

  -- The job is in the queue, its broadcast is over, and nothing but a new job or a spurious wake-up
  -- can come next.
  pub record IsLost (job : A) (s : Pool A) : Type ℓ where
    pub reached : Reach create_thread_pool s
    pub queued : s.work_queue.nodes ≡ job ∷ []
    pub asleep : Asleep s
    pub only :
        (s' : Pool A)
        → Step s s'
        → ((other : A) × (s' ≡ add_job s other)) ⊎ ((w : ℕ) × (s' ≡ set_worker s w woken))

  -- A job that is added while no worker waits may be lost: there is a run in which the workers start to
  -- wait only after its broadcast. The job is then in the queue while every worker waits, and nothing
  -- but another job or a spurious wake-up can come next.
  pub IsLost-wakeup : (job : A) → (s : Pool A) × IsLost job s
  unfolding create_thread_pool init_queue init_list add_job enqueue add_last broadcast set_worker
  IsLost-wakeup job =
      let s : Pool A =
        set_worker
          (set_worker
            (set_worker (set_worker (broadcast (add_job create_thread_pool job) 0) 0 waiting) 1
              waiting)
            2 waiting)
          3 waiting in
      let asleep : Asleep s = record { all_wait = waits; none_due = refl } in
      (
        s,
        record {
          reached =
              next
                (next
                  (next
                    (next (next (next here (add job)) (signal refl)) (wait 0 (omega arith) refl))
                    (wait 1 (omega arith) refl))
                  (wait 2 (omega arith) refl))
                (wait 3 (omega arith) refl);
          queued = refl;
          asleep = asleep;
          only = λ s' step. Asleep-only asleep step;
        },
      )
    where
      waits :
          (w : ℕ)
          → w < max_worker_thread
          → update {A = Worker A}
              (update (update (update (λ w. asking) 0 waiting) 1 waiting) 2 waiting)
              3
              waiting
              w
            ≡ waiting
      waits zero near = refl
      waits (suc zero) near = refl
      waits (suc (suc zero)) near = refl
      waits (suc (suc (suc zero))) near = refl
      waits (suc (suc (suc (suc w)))) near = absurd (omega (arith, near))
