-- ===== src/MusicPlayer.antt =====
-- MusicServer/src/musicPlayer.c: `initMplayer` and `playSong`. Decoding is libmpg123's and sound is
-- libao's: whether a file opens and what it decodes to is the argument `Song`.
pub mod Played
use music_server_app.Base.{ℕ, Bool, true, false, List, [], ◌∷◌, ◌++◌, if◌then◌else◌, ◌==◌}
use music_server_app.ClientDb.{Server}
use music_server_app.ResourceManager.{RManager, RmMsg, mplayer_done, mplayer_stop, mplayer_err}
use music_server_app.ResourceManager.Machine.{with_server, post_msg_to_rm}

-- A round of the loop: whether another thread sets `mp->stop` to 1 before the round reads it, and
-- the sound that `mpg123_read` has put into the buffer.
pub record Frame : Type 0 where
  pub raised : Bool
  pub sound : List ℕ

-- Whether `mpg123_open` succeeds, and the rounds in which `mpg123_read` does.
pub record Song : Type 0 where
  pub opens : Bool
  pub frames : List Frame

-- The message, the flag, and what `ao_play` was given.
pub record Play : Type 0 where
  pub message : RmMsg
  pub stop : ℕ
  pub played : List ℕ

unfoldable pub init_mplayer : Server → Server
init_mplayer s = record s { stop = 0 }

unfoldable pub play_frames : List Frame → ℕ → List ℕ → Play
play_frames [] stop played = record { message = mplayer_done; stop = stop; played = played }
play_frames (f ∷ fs) stop played =
    let stop' = if f.raised then 1 else stop in
    if stop' == 1
    then record { message = mplayer_stop; stop = 0; played = played }
    else play_frames fs stop' (played ++ f.sound)

-- The song's part of `playSong`, with the flag as it stands when the call begins.
unfoldable pub play_opened : Song → ℕ → Play
play_opened song stop =
    if song.opens
    then play_frames song.frames stop []
    else record { message = mplayer_err; stop = stop; played = [] }

-- With the sound, the manager whose queue has the message.
unfoldable pub play_song : RManager → Song → List ℕ × RManager
play_song rm song =
    let play = play_opened song rm.server.stop in
    (
      play.played,
      post_msg_to_rm (with_server rm (record rm.server { stop = play.stop })) play.message,
    )
