-- ===== src/PlayList/Schedule.antt =====
-- `playListSchedular` of MusicServer/src/playlist.c: which request it finds.
use music_server_app.Base.{
  ℕ, zero, suc, ◌+◌, ◌-◌, ◌%◌, ◌<◌, ◌≡◌, inl, inr, true, Option, none, some, arith, get_elem?,
  Option-cases, lt→ltb, max_client,
}
use music_server_app.Base.Run.{fault, out_of_bounds, Returns, EndsUnless, ends, overreads}
use music_server_app.PlayList.{
  Request, PlayList, PlState, no_client, request_at, scan_clients, first_client, fall_back,
  found_at, Found, play_list_scheduler, search_from, same_state,
}
use music_server_app.PlayList.Invariant.{IsCurrent, last_client}

-- The client whose turn it is: the one behind the current client, around the first nine. Before any
-- download the current client is 255, and the fifth client's turn comes first.
abbrev pub next_in_turn : ℕ → ℕ
next_in_turn c = (c + 1) % 9

module _ (want : PlState) (pl : PlayList) where
  pub request_at-get_elem? :
      (c place : ℕ) {r : Request}
      → request_at want pl c place ≡ some r
      → (get_elem? (pl.p_list c).nodes place ≡ some r) × (same_state r.pl_status want ≡ true)
  unfolding request_at
  request_at-get_elem? c place h = ground arith

  -- Of the clients from `start` on, the first whose list begins with a request in the state.
  pub record IsFirst (start client : ℕ) (r : Request) : Type 0 where
    pub turns : ℕ
    pub reached : client ≡ (start + turns) % 9
    pub stands : request_at want pl client 0 ≡ some r
    pub passed : (j : ℕ) → j < turns → request_at want pl ((start + j) % 9) 0 ≡ none

  -- No list of the first nine clients begins with a request in the state.
  abbrev pub NoneWaits : Type 0
  NoneWaits = (c : ℕ) → c < last_client → request_at want pl c 0 ≡ none

  -- The scheduler finds no first request, and there is no current client whose second one to take.
  abbrev pub Overreads : Type 0
  Overreads = (pl.current_downloading ≡ no_client) × NoneWaits

  -- What the scheduler is to find. The tenth client is never looked at.
  pub data Chosen : Option Found → Type 0 where
    head :
        {client : ℕ} {r : Request}
        → IsFirst (next_in_turn pl.current_downloading) client r
        → Chosen (some (record { client = client; place = 0; request = r }))
    second :
        {r : Request}
        → NoneWaits
        → pl.current_downloading < last_client
        → request_at want pl pl.current_downloading 1 ≡ some r
        → Chosen (some (record { client = pl.current_downloading; place = 1; request = r }))
    nothing :
        NoneWaits
        → pl.current_downloading < last_client
        → request_at want pl pl.current_downloading 1 ≡ none
        → Chosen none

  -- A run of clients without such a head grows by one at its front.
  shifted_none :
      (c k : ℕ)
      → request_at want pl c 0 ≡ none
      → ((j : ℕ) → j < k → request_at want pl (((c + 1) % 9 + j) % 9) 0 ≡ none)
      → c < last_client
      → (i : ℕ) → i < suc k
      → request_at want pl ((c + i) % 9) 0 ≡ none
  shifted_none c k missing rest h zero l =
      let same : (c + 0) % 9 ≡ c = omega arith in rw same missing
  shifted_none c k missing rest h (suc i) l =
      let same : (c + suc i) % 9 ≡ ((c + 1) % 9 + i) % 9 = omega arith in
      rw same (rest i (omega arith))

  IsFirst-next :
      (c : ℕ) {d : ℕ} {r : Request}
      → request_at want pl c 0 ≡ none
      → IsFirst ((c + 1) % 9) d r
      → c < last_client
      → IsFirst c d r
  IsFirst-next c missing f h = record {
    turns = suc f.turns;
    reached = omega (arith, f.reached);
    stands = f.stands;
    passed = shifted_none c f.turns missing f.passed h;
  }

  scan_clients-IsFirst :
      (k c : ℕ) {d : ℕ} {r : Request}
      → c < last_client
      → scan_clients k want pl c ≡ some (d, r)
      → IsFirst c d r
  unfolding scan_clients
  scan_clients-IsFirst zero c h e = cc
  scan_clients-IsFirst (suc k) c h e = elim (Option-cases (request_at want pl c 0)) [
    | inl missing ↦
        IsFirst-next c missing
          (scan_clients-IsFirst k ((c + 1) % 9) (omega arith) (rw (scan_clients, missing) at e)) h
    | inr (q, found) ↦
        let same = rw (scan_clients, found) at e in
        record {
          turns = 0;
          reached = ground arith;
          stands = ground arith;
          passed = λ j l. elim l [ ];
        }
  ]

  scan_clients-none :
      (k c i : ℕ)
      → i < k
      → c < last_client
      → scan_clients k want pl c ≡ none
      → request_at want pl ((c + i) % 9) 0 ≡ none
  unfolding scan_clients
  scan_clients-none zero c i h near e = elim h [ ]
  scan_clients-none (suc k) c i h near e = elim (Option-cases (request_at want pl c 0)) [
    | inr (q, found) ↦ let bad = rw (scan_clients, found) at e in cc
    | inl missing ↦
        shifted_none c k missing
          (λ j l.
            scan_clients-none k ((c + 1) % 9) j l (omega arith) (rw (scan_clients, missing) at e))
          near i h
  ]

  none_waits :
      (start : ℕ) → start < last_client → scan_clients max_client want pl start ≡ none → NoneWaits
  none_waits start h e c l =
      let around : (start + (c + 9 - start) % 9) % 9 ≡ c = omega arith in
      rw around at (scan_clients-none max_client start ((c + 9 - start) % 9) (omega arith) h e)

  fall_back-Chosen :
      NoneWaits → pl.current_downloading < last_client → Returns Chosen (fall_back want pl)
  unfolding fall_back
  fall_back-Chosen idle h =
      rw (lt→ltb pl.current_downloading max_client (omega arith))
        (elim (Option-cases (request_at want pl pl.current_downloading 1)) [
          | inl missing ↦ rw (missing, found_at) (nothing idle h missing)
          | inr (r, found) ↦ rw (found, found_at) (second idle h found)
        ])

  fall_back_overreads : pl.current_downloading ≡ no_client → fall_back want pl ≡ fault out_of_bounds
  unfolding fall_back
  fall_back_overreads e = rw e λ i. fault out_of_bounds

  search_from-Chosen :
      IsCurrent last_client pl.current_downloading
      → EndsUnless Overreads Chosen (search_from want pl (next_in_turn pl.current_downloading))
  unfolding search_from
  search_from-Chosen h =
      let start : ℕ = next_in_turn pl.current_downloading in
      let near : start < last_client = omega arith in
      elim (Option-cases (scan_clients max_client want pl start)) [
        | inl missing ↦
            let idle = none_waits start near missing in
            elim h [
              | inl e ↦ overreads (e, idle) (rw (missing, search_from) (fall_back_overreads e))
              | inr served ↦
                  ends (λ bad. absurd (omega (arith, served, bad.0)))
                    (rw (missing, search_from) (fall_back-Chosen idle served))
            ]
        | inr ((d, r), found) ↦
            let first = scan_clients-IsFirst max_client start near found in
            ends
              (λ bad. absurd (
                let none_there = bad.1 d (omega (arith, first.reached)) in
                let there = first.stands in cc))
              (rw (found, search_from) (head first))
      ]

  -- Where the current client is one of the first nine, or none yet, the scheduler ends and finds the
  -- first of the nine, from the one behind the current client on (the fifth, where there is none
  -- yet), whose list begins with a request in the state; with no such client the second request of
  -- the current client, if that is in the state; and otherwise nothing. But where no such client and
  -- no current client are there, it reads `pList` out of its bounds.
  pub play_list_scheduler-Chosen :
      IsCurrent last_client pl.current_downloading
      → EndsUnless Overreads Chosen (play_list_scheduler pl want)
  unfolding play_list_scheduler first_client
  play_list_scheduler-Chosen h = search_from-Chosen h
