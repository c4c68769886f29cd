-- ===== src/Jukebox.antt =====
-- MusicServer/src/jukebox.c: the random walk through the directories of music to an MP3 file. What
-- `scandir` finds and what `rand` gives are the record `Disk`.
pub mod Names
pub mod Walks
pub mod Endings
use music_server_app.Base.{
  ℕ, zero, suc, ◌+◌, ◌-◌, ◌%◌, Bool, true, false, not, ◌&&◌, ◌||◌, Option, none, some, List, [],
  ◌∷◌, ◌++◌, if◌then◌else◌, ltb, ◌==◌, length, drop, get_elem?,
}
use music_server_app.Base.Run.{Run, ok, out_of_bounds, out_of_fuel, fault, ◌>>=◌, ◌>>◌, require}

-- `d_type`
pub data EntryType : Type 0 where
  dt_dir dt_reg dt_other : EntryType

-- `struct dirent`; a name is its bytes before the terminator.
pub record Entry : Type 0 where
  pub d_type : EntryType
  pub d_name : List ℕ

-- The entries of a directory in the order of `alphasort`, none where it cannot be read, and what the
-- n-th call of `rand` gives. Each is made after `srand` with the time of day.
pub record Disk : Type 0 where
  pub entries : List ℕ → List Entry
  pub rand : ℕ → ℕ

-- `strcmp` gives 0.
unfoldable pub same_string : List ℕ → List ℕ → Bool
same_string [] [] = true
same_string [] (y ∷ ys) = false
same_string (x ∷ xs) [] = false
same_string (x ∷ xs) (y ∷ ys) = x == y && same_string xs ys

abbrev pub mp3_suffix : List ℕ
mp3_suffix = 46 ∷ 109 ∷ 112 ∷ 51 ∷ []

unfoldable pub check_mp3_file : List ℕ → Bool
check_mp3_file file_name =
    if ltb (length file_name) 5
    then false
    else same_string (drop (length file_name - 4) file_name) mp3_suffix

-- `filterDirectory`: not "." and not "..".
unfoldable pub filter_directory : Entry → Bool
filter_directory dir =
    if same_string dir.d_name (46 ∷ []) || same_string dir.d_name (46 ∷ 46 ∷ [])
    then false
    else true

-- The entries that `scandir` keeps.
unfoldable pub scandir : (Entry → Bool) → List Entry → List Entry
scandir filter [] = []
scandir filter (e ∷ es) = let rest = scandir filter es in if filter e then e ∷ rest else rest

-- `JB_FILE_TYPE`
pub data JbFileType : Type 0 where
  jb_none jb_dir jb_mp3 : JbFileType

-- `rootDir` and `oldDir` of `getRandomDir`, and how often it has been called.
pub record Walk : Type 0 where
  pub root_dir : List ℕ
  pub old_dir : List ℕ
  pub calls : ℕ

abbrev pub max_path : ℕ
max_path = 2048

-- `sprintf(rootDir, "%s/%s", rootDir, d_name)`. Source and destination overlap, which C leaves
-- undefined; here the copy of a string onto itself leaves it as it was.
abbrev pub join : List ℕ → List ℕ → List ℕ
join dir name = dir ++ (47 ∷ name)

unfoldable pub enter : JbFileType → Walk → Entry → Run (JbFileType × Walk)
enter type w e = do
  require (ltb (length w.root_dir) max_path) out_of_bounds
  require (ltb (length (join w.root_dir e.d_name)) max_path) out_of_bounds
  ok (type, record w { root_dir = join w.root_dir e.d_name; old_dir = w.root_dir })

unfoldable pub choose : Walk → Entry → Run (JbFileType × Walk)
choose w e = elim e.d_type [
  | dt_dir ↦ enter jb_dir w e
  | dt_reg ↦ if check_mp3_file e.d_name then enter jb_mp3 w e else ok (jb_none, w)
  | dt_other ↦ ok (jb_none, w)
]

-- The entry at `rand() % num`.
unfoldable pub choose_at : Walk → Option Entry → Run (JbFileType × Walk)
choose_at w none = fault out_of_bounds
choose_at w (some e) = choose w e

unfoldable pub choose_from : Disk → Walk → List Entry → Run (JbFileType × Walk)
choose_from disk w [] = ok (jb_none, w)
choose_from disk w (e ∷ es) =
    choose_at (record w { calls = suc w.calls })
      (get_elem? (e ∷ es) (disk.rand w.calls % length (e ∷ es)))

unfoldable pub get_random_dir : Disk → Walk → Run (JbFileType × Walk)
get_random_dir disk w = choose_from disk w (scandir filter_directory (disk.entries w.root_dir))

-- "/mnt/hdd/HDD/HindiSongs"
abbrev pub jukebox_root_dir : List ℕ
jukebox_root_dir =
    47 ∷ 109 ∷ 110 ∷ 116 ∷ 47 ∷ 104 ∷ 100 ∷ 100 ∷ 47 ∷ 72 ∷ 68 ∷ 68 ∷ 47 ∷ 72 ∷ 105 ∷ 110 ∷ 100
    ∷ 105 ∷ 83 ∷ 111 ∷ 110 ∷ 103 ∷ 115 ∷ []

-- The loop of `scheduleNextRandomSongFunc`: after a round without result the walk goes back to
-- `oldDir`.
unfoldable pub next_random_song : ℕ → Disk → Walk → Run (List ℕ)
next_random_song zero disk w = fault out_of_fuel
next_random_song (suc n) disk w = get_random_dir disk w >>= λ (type, w'). elim type [
  | jb_none ↦ next_random_song n disk (record w' { root_dir = w'.old_dir })
  | jb_dir ↦ next_random_song n disk w'
  | jb_mp3 ↦ ok w'.root_dir
]

unfoldable pub find_random_song : ℕ → Disk → Run (List ℕ)
unfolding next_random_song
find_random_song fuel disk =
    next_random_song fuel disk
      (record { root_dir = jukebox_root_dir; old_dir = jukebox_root_dir; calls = 0 })
