-- ===== src/PlayList/Invariant.antt =====
-- What the operations of MusicServer/src/playlist.c keep: every request carries the number of the
-- client in whose list it stands, and the tenth client's requests are never scheduled.
use music_server_app.Base.{
  ℕ, ◌<◌, ◌≡◌, ◌⊎◌, inl, inr, refl, Bool, false, List, arith, ltb, ◌==◌, Bool-cases, All,
  All-append, lt→ltb, max_client,
}
use music_server_app.Base.Run.{ok, Returns}
use music_server_app.NodeList.{NodeList, add_last, delete_one_from_list_having}
use music_server_app.NodeList.Laws.{Removes, All-Removes, delete_one_from_list_having_lem}
use music_server_app.PlayList.{
  Request, PlayList, waiting, no_client, init_play_list, put_list, lock, add_to_play_list,
  delete_one_of, max_playlist,
}

-- A client that the scheduler can choose, or none yet.
abbrev pub IsCurrent : ℕ → ℕ → Type 0
IsCurrent bound c = (c ≡ no_client) ⊎ (c < bound)

abbrev pub last_client : ℕ
last_client = 9

pub record IsSound (pl : PlayList) : Type 0 where
  pub unlocked : pl.locked ≡ false
  pub owned : (i : ℕ) → i < max_client → All (λ r. r.id ≡ i) (pl.p_list i).nodes
  pub downloads : IsCurrent last_client pl.current_downloading
  pub plays : IsCurrent max_client pl.current_playing
  pub unserved : All (λ r. r.pl_status ≡ waiting) (pl.p_list last_client).nodes

-- The parts of a list that an operation may put in place of client `i`'s.
abbrev pub Fits : ℕ → List Request → Type 0
Fits i rs = All (λ r. r.id ≡ i) rs × (i ≡ last_client → All (λ r. r.pl_status ≡ waiting) rs)

pub IsSound-Fits :
    {pl : PlayList} → IsSound pl → (i : ℕ) → i < max_client → Fits i (pl.p_list i).nodes
IsSound-Fits {pl} s i h = (s.owned i h, λ e. rw e s.unserved)

pub put_list-IsSound :
    {pl : PlayList} (i : ℕ) (l : NodeList Request)
    → IsSound pl
    → Fits i l.nodes
    → IsSound (put_list pl i l)
unfolding put_list
put_list-IsSound {pl} i l s f = record {
  unlocked = s.unlocked;
  owned = λ j h. elim (Bool-cases (j == i)) [
    | inl e ↦ let same : j ≡ i = ground arith in rw e (rw same f.0)
    | inr e ↦ rw e (s.owned j h)
  ];
  downloads = s.downloads;
  plays = s.plays;
  unserved = elim (Bool-cases (9 == i)) [
    | inl e ↦ rw e (f.1 (ground arith))
    | inr e ↦ rw e s.unserved
  ];
}

pub init_play_list-IsSound : IsSound init_play_list
unfolding init_play_list
init_play_list-IsSound = record {
  unlocked = refl;
  owned = λ i h. tt;
  downloads = inl refl;
  plays = inl refl;
  unserved = tt;
}

pub lock-IsSound : {pl : PlayList} → IsSound pl → lock pl ≡ ok tt
unfolding lock
lock-IsSound s = rw s.unlocked

pub resize-IsSound :
    {pl : PlayList} (n : ℕ) → IsSound pl → IsSound (record pl { play_list_size = n })
resize-IsSound n s = record {
  unlocked = s.unlocked;
  owned = s.owned;
  downloads = s.downloads;
  plays = s.plays;
  unserved = s.unserved;
}

pub plays-IsSound :
    {pl : PlayList} (c : ℕ)
    → IsSound pl
    → c < max_client
    → IsSound (record pl { current_playing = c })
plays-IsSound c s h = record {
  unlocked = s.unlocked;
  owned = s.owned;
  downloads = s.downloads;
  plays = inr h;
  unserved = s.unserved;
}

pub downloads-IsSound :
    {pl : PlayList} (c : ℕ)
    → IsSound pl
    → c < last_client
    → IsSound (record pl { current_downloading = c })
downloads-IsSound c s h = record {
  unlocked = s.unlocked;
  owned = s.owned;
  downloads = inr h;
  plays = s.plays;
  unserved = s.unserved;
}

add_last-Fits :
    (c tok size : ℕ) (bytes : List ℕ) (l : NodeList Request)
    → Fits c l.nodes
    → Fits c
        (add_last l
          (record { token = tok; id = c; pl_status = waiting; payload = bytes; size = size })).nodes
unfolding add_last
add_last-Fits c tok size bytes l f =
    (All-append _ l.nodes _ f.0 (refl, tt), λ e. All-append _ l.nodes _ (f.1 e) (refl, tt))

-- `addToPlayList` for a client that exists, full list or not.
pub add_to_play_list-IsSound :
    {pl : PlayList} (c tok size : ℕ) (bytes : List ℕ)
    → IsSound pl
    → c < max_client
    → Returns (λ (_, pl'). IsSound pl') (add_to_play_list pl c tok bytes size)
unfolding add_to_play_list
add_to_play_list-IsSound {pl} c tok size bytes s h =
    elim (Bool-cases (ltb pl.play_list_size max_playlist)) [
      | inr full ↦ rw full s
      | inl room ↦
          rw (room, lock-IsSound s, lt→ltb _ _ h)
            (resize-IsSound _ (
              put_list-IsSound c (add_last (pl.p_list c) _) s
                (add_last-Fits c tok size bytes _ (IsSound-Fits s c h))))
    ]

Removes-Fits :
    {test : Request → Bool} {xs ys : List Request} (c : ℕ)
    → Removes test xs ys
    → Fits c xs
    → Fits c ys
Removes-Fits c r f = (All-Removes _ r f.0, λ e. All-Removes _ r (f.1 e))

delete_one-Fits :
    (test : Request → Bool) (c : ℕ) (l : NodeList Request)
    → Fits c l.nodes
    → Fits c (delete_one_from_list_having test l).1.nodes
delete_one-Fits test c l f = elim (delete_one_from_list_having_lem test l) [
  | inl (_, removed, _) ↦ Removes-Fits c removed f
  | inr (_, _, same) ↦ rw same f
]

module _ (test : Request → Bool) {pl : PlayList} (s : IsSound pl) where
  pub delete_one_of-IsSound :
      (c : ℕ) → c < max_client → Returns (λ (_, pl'). IsSound pl') (delete_one_of test pl c)
  unfolding delete_one_of
  delete_one_of-IsSound c h =
      rw (lock-IsSound s, lt→ltb _ _ h)
        (put_list-IsSound c (delete_one_from_list_having test (pl.p_list c)).1 s
          (delete_one-Fits test c _ (IsSound-Fits s c h)))
