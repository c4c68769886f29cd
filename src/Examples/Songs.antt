-- ===== src/Examples/Songs.antt =====
-- The jukebox's walk and the player at concrete inputs.
use mathlib.Core.Option.{some-injective, none}
use music_server_app.Base.{sym, ◌⊎◌, zero, suc, ◌≡◌, refl, inl, true, false, some, [], ◌∷◌, arith}
use music_server_app.Base.Run.{fault, out_of_fuel, Returns}
use music_server_app.Jukebox.{
  dt_dir, dt_reg, dt_other, Entry, Disk, jukebox_root_dir, find_random_song, check_mp3_file,
  same_string, filter_directory, scandir,
}
use music_server_app.Jukebox.Walks.{Has, IsSong}
use music_server_app.Jukebox.Endings.{Playable, find_random_song-IsSong, find_random_song_hangs}
use music_server_app.MusicPlayer.{Song, play_song}
use music_server_app.MusicPlayer.Played.{Plays, play_song-Plays}
use music_server_app.Examples.World.{manager}

-- "a.mp3"
abbrev a_song : Entry
a_song = record { d_type = dt_reg; d_name = 97 ∷ 46 ∷ 109 ∷ 112 ∷ 51 ∷ [] }

abbrev here : Entry
here = record { d_type = dt_dir; d_name = 46 ∷ [] }

-- One song in the root.
abbrev one_song : Disk
one_song = record { entries = λ dir. here ∷ a_song ∷ []; rand = λ n. 5 }

a_song_only : (e : Entry) → Has one_song jukebox_root_dir e → e ≡ a_song
unfolding scandir filter_directory same_string
a_song_only e (zero, is) = sym (some-injective a_song e is)
a_song_only e (suc i, is) = let no_more : none ≡ some e = is in cc

one_song-Playable : Playable one_song 1 jukebox_root_dir
unfolding scandir filter_directory same_string check_mp3_file
one_song-Playable = (omega arith, λ e has. rw (a_song_only e has) (omega arith, inl (refl, refl)))

find_random_song-IsSong_example : Returns (IsSong one_song) (find_random_song 1 one_song)
find_random_song-IsSong_example = find_random_song-IsSong one_song 1 one_song-Playable

abbrev empty_disk : Disk
empty_disk = record { entries = λ dir. here ∷ []; rand = λ n. 5 }

nothing_there :
    (e : Entry)
    → Has empty_disk jukebox_root_dir e
    → (e.d_type ≡ dt_other) ⊎ ((e.d_type ≡ dt_reg) × (check_mp3_file e.d_name ≡ false))
unfolding scandir filter_directory same_string
nothing_there e (i, is) = let nothing : none ≡ some e = is in absurd (cc)

find_random_song_hangs_example : find_random_song 7 empty_disk ≡ fault out_of_fuel
find_random_song_hangs_example = find_random_song_hangs empty_disk nothing_there 7

abbrev two_frames : Song
two_frames = record {
  opens = true;
  frames =
      record { raised = false; sound = 1 ∷ [] } ∷ record { raised = true; sound = 2 ∷ [] } ∷ [];
}

play_song-Plays_example : Plays manager two_frames (play_song manager two_frames)
play_song-Plays_example = play_song-Plays manager two_frames
