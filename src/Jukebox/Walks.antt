-- ===== src/Jukebox/Walks.antt =====
-- Where the walk of MusicServer/src/jukebox.c through the directories leads.
use music_server_app.Base.{
  ℕ, zero, suc, ◌%◌, ◌<◌, ◌≡◌, inl, inr, refl, arith, some, List, [], ◌∷◌, ◌++◌, ltb, length,
  get_elem?, Bool-cases, Option-cases, ltb→lt, lt→ltb, length-append,
}
use music_server_app.Base.Run.{ok, Ensures, Ensures-bind}
use music_server_app.Jukebox.{
  EntryType, dt_dir, dt_reg, dt_other, Entry, Disk, check_mp3_file, filter_directory, scandir,
  JbFileType, jb_none, jb_dir, jb_mp3, Walk, max_path, join, enter, choose, choose_at, choose_from,
  get_random_dir, jukebox_root_dir, next_random_song, mp3_suffix,
}
use music_server_app.Jukebox.Names.{check_mp3_file_iff}

-- The directory has the entry, which is not one of "." and "..".
abbrev pub Has : Disk → List ℕ → Entry → Type 0
Has disk dir e = (i : ℕ) × (get_elem? (scandir filter_directory (disk.entries dir)) i ≡ some e)

-- The root of the music and what lies below it.
pub data Below (disk : Disk) : List ℕ → Type 0 where
  root : Below disk jukebox_root_dir
  child :
      {dir : List ℕ} {e : Entry}
      → Below disk dir
      → Has disk dir e
      → e.d_type ≡ dt_dir
      → Below disk (join dir e.d_name)

-- A regular file below the root with a name that ends in ".mp3", and a path that the buffer has room for.
pub record IsSong (disk : Disk) (path : List ℕ) : Type 0 where
  pub dir : List ℕ
  pub entry : Entry
  pub below : Below disk dir
  pub has : Has disk dir entry
  pub regular : entry.d_type ≡ dt_reg
  pub named : (stem : List ℕ) × (0 < length stem) × (entry.d_name ≡ stem ++ mp3_suffix)
  pub path_is : path ≡ join dir entry.d_name
  pub fits : length path < max_path

-- What a walk keeps.
pub record Walks (disk : Disk) (w : Walk) : Type 0 where
  pub here : Below disk w.root_dir
  pub back : Below disk w.old_dir

-- What a round leaves.
abbrev Round : Disk → JbFileType × Walk → Type 0
Round disk (jb_none, w) = Walks disk w
Round disk (jb_dir, w) = Walks disk w
Round disk (jb_mp3, w) = IsSong disk w.root_dir

abbrev pub entered : Walk → Entry → Walk
entered w e = record w { root_dir = join w.root_dir e.d_name; old_dir = w.root_dir }

pub enter_fits :
    (t : JbFileType) (w : Walk) (e : Entry)
    → length (join w.root_dir e.d_name) < max_path
    → enter t w e ≡ ok (t, entered w e)
unfolding enter
enter_fits t w e fits =
    let shorter : length w.root_dir < max_path =
      omega (arith, fits, length-append w.root_dir (47 ∷ e.d_name)) in
    rw (lt→ltb _ _ shorter, lt→ltb _ _ fits) refl

enter-Ensures :
    (P : JbFileType × Walk → Type 0) (t : JbFileType) (w : Walk) (e : Entry)
    → (length (join w.root_dir e.d_name) < max_path → P (t, entered w e))
    → Ensures P (enter t w e)
unfolding enter
enter-Ensures P t w e next = elim (Bool-cases (ltb (length (join w.root_dir e.d_name)) max_path)) [
  | inl fits ↦ rw (enter_fits t w e (ltb→lt _ _ fits)) (next (ltb→lt _ _ fits))
  | inr long ↦ elim (Bool-cases (ltb (length w.root_dir) max_path)) [
    | inl short ↦ rw (short, long) tt
    | inr too_long ↦ rw too_long tt
  ]
]

module _ (disk : Disk) where
  choose-Round :
      (w : Walk) (e : Entry)
      → Walks disk w
      → Has disk w.root_dir e
      → Ensures (Round disk) (choose w e)
  unfolding choose
  choose-Round w e k has = go e.d_type refl
    where
      go : (t : EntryType) → e.d_type ≡ t → Ensures (Round disk) (choose w e)
      go dt_other is = rw (is, choose) k
      go dt_dir is =
          rw (is, choose)
            (enter-Ensures (Round disk) jb_dir w e
              λ fits. record { here = child k.here has is; back = k.here })
      go dt_reg is = elim (Bool-cases (check_mp3_file e.d_name)) [
        | inl named ↦
            rw (is, named, choose)
              (enter-Ensures (Round disk) jb_mp3 w e λ fits. record {
                dir = w.root_dir;
                entry = e;
                below = k.here;
                has = has;
                regular = is;
                named = (check_mp3_file_iff e.d_name).0 named;
                path_is = refl;
                fits = fits;
              })
        | inr other ↦ rw (is, other, choose) k
      ]

  get_random_dir-Round : (w : Walk) → Walks disk w → Ensures (Round disk) (get_random_dir disk w)
  unfolding get_random_dir choose_from choose_at
  get_random_dir-Round w k = go (scandir filter_directory (disk.entries w.root_dir)) refl
    where
      go :
          (es : List Entry)
          → scandir filter_directory (disk.entries w.root_dir) ≡ es
          → Ensures (Round disk) (choose_from disk w es)
      go [] is = k
      go (e ∷ es) is =
          elim (Option-cases (get_elem? (e ∷ es) (disk.rand w.calls % length (e ∷ es)))) [
            | inl missing ↦ rw missing tt
            | inr (f, found) ↦ rw found (
                choose-Round (record w { calls = suc w.calls }) f
                  (record { here = k.here; back = k.back })
                  (disk.rand w.calls % length (e ∷ es), rw is found))
          ]

  pub next_random_song-IsSong :
      (fuel : ℕ) (w : Walk) → Walks disk w → Ensures (IsSong disk) (next_random_song fuel disk w)
  unfolding next_random_song
  next_random_song-IsSong zero w k = tt
  next_random_song-IsSong (suc n) w k =
      Ensures-bind (Round disk) (IsSong disk) (get_random_dir disk w) _ (get_random_dir-Round w k)
        (go λ w' k'. next_random_song-IsSong n w' k')
    where
      go :
          ((w' : Walk) → Walks disk w' → Ensures (IsSong disk) (next_random_song n disk w'))
          → (r : JbFileType × Walk) → Round disk r
          → Ensures (IsSong disk) (elim r.0 [
            | jb_none ↦ next_random_song n disk (record r.1 { root_dir = r.1.old_dir })
            | jb_dir ↦ next_random_song n disk r.1
            | jb_mp3 ↦ ok r.1.root_dir
          ])
      go next (jb_none, w') k' =
          next (record w' { root_dir = w'.old_dir }) (record { here = k'.back; back = k'.back })
      go next (jb_dir, w') k' = next w' k'
      go next (jb_mp3, w') song = song
