-- ===== src/Jukebox/Endings.antt =====
-- Whether the walk of MusicServer/src/jukebox.c through the directories ends.
use native.Mathlib.Nat.{mod-lt, zero-lt-suc}
use music_server_app.Base.{
  ℕ, zero, suc, ◌%◌, ◌<◌, ◌≡◌, ◌⊎◌, inl, inr, refl, arith, true, false, some, List, [], ◌∷◌, length,
  get_elem?,
}
use music_server_app.Base.Run.{
  ok, fault, out_of_fuel, Returns, Returns-Ensures, Returns-mono, ◌>>=◌,
}
use music_server_app.Jukebox.{
  dt_dir, dt_reg, dt_other, Entry, Disk, check_mp3_file, filter_directory, scandir, jb_none, jb_dir,
  jb_mp3, Walk, max_path, join, choose, choose_at, choose_from, get_random_dir, jukebox_root_dir,
  next_random_song, find_random_song,
}
use music_server_app.Jukebox.Walks.{Has, root, IsSong, entered, enter_fits, next_random_song-IsSong}

-- Every path of `n` steps down from the directory ends before at an MP3 file: no directory on it is
-- empty or has an entry that is neither a directory nor an MP3 file, and each path has room.
abbrev pub Playable : Disk → ℕ → List ℕ → Type 0
Playable disk zero dir = ⊥
Playable disk (suc n) dir =
    (0 < length (scandir filter_directory (disk.entries dir)))
    × ((e : Entry)
        → Has disk dir e
        → (length (join dir e.d_name) < max_path)
          × (((e.d_type ≡ dt_reg) × (check_mp3_file e.d_name ≡ true))
              ⊎ ((e.d_type ≡ dt_dir) × Playable disk n (join dir e.d_name))))

-- An index in range has an element.
get_elem?_within :
    (es : List Entry) (i : ℕ) → i < length es → (e : Entry) × (get_elem? es i ≡ some e)
get_elem?_within [] i h = absurd (omega (arith, h))
get_elem?_within (e ∷ es) zero h = (e, refl)
get_elem?_within (e ∷ es) (suc i) h = get_elem?_within es i (omega (arith, h))

module _ (disk : Disk) where
  -- In a directory that is not empty an entry of it is chosen.
  get_random_dir-choose :
      (w : Walk)
      → 0 < length (scandir filter_directory (disk.entries w.root_dir))
      → (e : Entry) × Has disk w.root_dir e
        × (get_random_dir disk w ≡ choose (record w { calls = suc w.calls }) e)
  unfolding get_random_dir choose_from choose_at
  get_random_dir-choose w some_there =
      go (scandir filter_directory (disk.entries w.root_dir)) refl some_there
    where
      go :
          (es : List Entry)
          → scandir filter_directory (disk.entries w.root_dir) ≡ es
          → 0 < length es
          → (e : Entry) × Has disk w.root_dir e
            × (choose_from disk w es ≡ choose (record w { calls = suc w.calls }) e)
      go [] is h = absurd (omega (arith, h))
      go (f ∷ fs) is h =
          let i : ℕ = disk.rand w.calls % length (f ∷ fs) in
          let (e, at) =
            get_elem?_within (f ∷ fs) i (mod-lt (disk.rand w.calls) (zero-lt-suc (length fs))) in
          (e, (i, rw is at), rw at refl)

  next_random_song_ends :
      (n : ℕ) (w : Walk)
      → Playable disk n w.root_dir
      → Returns (λ path. Unit {0}) (next_random_song n disk w)
  unfolding next_random_song choose
  next_random_song_ends zero w p = absurd p
  next_random_song_ends (suc n) w (some_there, each) =
      let (e, has, chosen) = get_random_dir-choose w some_there in
      let w' : Walk = record w { calls = suc w.calls } in
      let (fits, kind) = each e has in
      elim kind [
        | inl (is, named) ↦ rw (chosen, choose, is, named, enter_fits jb_mp3 w' e fits, ◌>>=◌) tt
        | inr (is, deeper) ↦
            rw (chosen, choose, is, enter_fits jb_dir w' e fits, ◌>>=◌)
              (next_random_song_ends n (entered w' e) deeper)
      ]

-- Where every path of `depth` steps down from the root of the music ends before at an MP3 file, no
-- directory on it is empty or has anything else in it, and paths fit into the buffer, the loop of
-- `scheduleNextRandomSongFunc` ends after at most `depth` rounds. The path that it has found is that
-- of a regular file with a name that ends in ".mp3", in the root of the music or below.
pub find_random_song-IsSong :
    (disk : Disk) (depth : ℕ)
    → Playable disk depth jukebox_root_dir
    → Returns (IsSong disk) (find_random_song depth disk)
unfolding find_random_song
find_random_song-IsSong disk depth p =
    let w : Walk = record { root_dir = jukebox_root_dir; old_dir = jukebox_root_dir; calls = 0 } in
    Returns-mono (λ path. Unit × IsSong disk path) (IsSong disk) _
      (Returns-Ensures (λ path. Unit {0}) (IsSong disk) (next_random_song depth disk w)
        (next_random_song_ends disk depth w p)
        (next_random_song-IsSong disk depth w (record { here = root; back = root })))
      λ path both. both.1

-- A round of the walk in a directory with nothing to play or to enter.
get_random_dir_none :
    (disk : Disk) (w : Walk)
    → ((e : Entry)
        → Has disk w.root_dir e
        → (e.d_type ≡ dt_other) ⊎ ((e.d_type ≡ dt_reg) × (check_mp3_file e.d_name ≡ false)))
    → (calls : ℕ) × (get_random_dir disk w ≡ ok (jb_none, record w { calls = calls }))
unfolding get_random_dir choose_from choose choose_at
get_random_dir_none disk w useless = go (scandir filter_directory (disk.entries w.root_dir)) refl
  where
    go :
        (es : List Entry)
        → scandir filter_directory (disk.entries w.root_dir) ≡ es
        → (calls : ℕ) × (choose_from disk w es ≡ ok (jb_none, record w { calls = calls }))
    go [] is = (w.calls, refl)
    go (f ∷ fs) is =
        let i : ℕ = disk.rand w.calls % length (f ∷ fs) in
        let (e, at) =
          get_elem?_within (f ∷ fs) i (mod-lt (disk.rand w.calls) (zero-lt-suc (length fs))) in
        (
          suc w.calls,
          elim (useless e (i, rw is at)) [
            | inl other ↦ rw (at, choose_at, choose, other) refl
            | inr (reg, unnamed) ↦ rw (at, choose_at, choose, reg, unnamed) refl
          ],
        )

-- Where the root of the music has only entries that are neither a directory nor an MP3 file, or none,
-- the loop of `scheduleNextRandomSongFunc` does not end, however long it goes on.
pub find_random_song_hangs :
    (disk : Disk)
    → ((e : Entry)
        → Has disk jukebox_root_dir e
        → (e.d_type ≡ dt_other) ⊎ ((e.d_type ≡ dt_reg) × (check_mp3_file e.d_name ≡ false)))
    → (fuel : ℕ) → find_random_song fuel disk ≡ fault out_of_fuel
unfolding find_random_song next_random_song
find_random_song_hangs disk useless fuel = go fuel 0
  where
    go :
        (fuel calls : ℕ)
        → next_random_song fuel disk
            (record { root_dir = jukebox_root_dir; old_dir = jukebox_root_dir; calls = calls })
          ≡ fault out_of_fuel
    go zero calls = refl
    go (suc n) calls =
        let (later, e) =
          get_random_dir_none disk
            (record { root_dir = jukebox_root_dir; old_dir = jukebox_root_dir; calls = calls })
            useless in
        rw (e, ◌>>=◌) (go n later)
