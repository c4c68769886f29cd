-- ===== src/MusicPlayer/Played.antt =====
-- What `playSong` of MusicServer/src/musicPlayer.c plays and reports.
use mathlib.Core.List.{append-nil, append_assoc}
use music_server_app.Base.{
  ℕ, ◌≡◌, ◌≢◌, ◌⊎◌, inl, inr, refl, ap, arith, Bool, true, false, List, [], ◌∷◌, ◌++◌, ◌==◌,
  Bool-cases,
}
use music_server_app.ResourceManager.{RManager, mplayer_done, mplayer_stop, mplayer_err}
use music_server_app.ResourceManager.Machine.{with_server, post_msg_to_rm}
use music_server_app.MusicPlayer.{Frame, Song, Play, play_frames, play_opened, play_song}

-- The sound of the frames, one behind the other.
abbrev pub sound_of : List Frame → List ℕ
sound_of [] = []
sound_of (f ∷ fs) = f.sound ++ sound_of fs

-- No round of these sees the flag.
abbrev pub Unseen : ℕ → List Frame → Type 0
Unseen stop [] = Unit
Unseen stop (f ∷ fs) = (stop ≢ 1) × (f.raised ≡ false) × Unseen stop fs

-- The frames are heard to their end and the flag is as it was, or up to the first round that sees the
-- flag, which is then 0.
pub data Heard (stop : ℕ) : List Frame → Play → Type 0 where
  to_end :
      {fs : List Frame}
      → Unseen stop fs
      → Heard stop fs (record { message = mplayer_done; stop = stop; played = sound_of fs })
  cut :
      (before : List Frame) (f : Frame) (after : List Frame)
      → Unseen stop before
      → (f.raised ≡ true) ⊎ (stop ≡ 1)
      → Heard stop
          (before ++ (f ∷ after))
          (record { message = mplayer_stop; stop = 0; played = sound_of before })

behind : List ℕ → Play → Play
behind heard p = record p { played = heard ++ p.played }

Heard-behind :
    (stop : ℕ) (f : Frame) (fs : List Frame) (p : Play)
    → stop ≢ 1
    → f.raised ≡ false
    → Heard stop fs p
    → Heard stop (f ∷ fs) (behind f.sound p)
unfolding behind
Heard-behind stop f fs _ clear quiet (to_end u) = to_end (clear, quiet, u)
Heard-behind stop f _ _ clear quiet (cut before g after u seen) =
    cut (f ∷ before) g after (clear, quiet, u) seen

play_frames-Heard :
    (fs : List Frame) (stop : ℕ) (played : List ℕ)
    → (p : Play) × Heard stop fs p × (play_frames fs stop played ≡ behind played p)
unfolding play_frames behind
play_frames-Heard [] stop played = (
  record { message = mplayer_done; stop = stop; played = [] },
  to_end tt,
  rw (append-nil played) refl,
)
play_frames-Heard (f ∷ fs) stop played =
    go f.raised refl (play_frames-Heard fs stop (played ++ f.sound))
  where
    stopped : Play
    stopped = record { message = mplayer_stop; stop = 0; played = [] }

    go :
        (raised : Bool)
        → f.raised ≡ raised
        → (p : Play) × Heard stop fs p
          × (play_frames fs stop (played ++ f.sound) ≡ behind (played ++ f.sound) p)
        → (p : Play) × Heard stop (f ∷ fs) p × (play_frames (f ∷ fs) stop played ≡ behind played p)
    go true is next = (stopped, cut [] f fs tt (inl is), rw (is, append-nil played) refl)
    go false is (p, h, e) = elim (Bool-cases (stop == 1)) [
      | inl set ↦ (
        stopped,
        cut [] f fs tt (inr (ground (arith, set))),
        rw (is, set, append-nil played) refl,
      )
      | inr clear ↦ (
        behind f.sound p,
        Heard-behind stop f fs p (ground (arith, clear)) is h,
        rw (is, clear, e)
            (ap (λ l. record p { played = l }) (append_assoc played f.sound p.played)),
      )
    ]

-- What a call leaves: what was heard, and the manager with one message more in its queue.
pub data Plays (rm : RManager) (song : Song) : List ℕ × RManager → Type 0 where
  unopened : song.opens ≡ false → Plays rm song ([], post_msg_to_rm rm mplayer_err)
  heard :
      (p : Play)
      → song.opens ≡ true
      → Heard rm.server.stop song.frames p
      → Plays rm song
          (p.played, post_msg_to_rm (with_server rm (record rm.server { stop = p.stop })) p.message)

-- `playSong` posts exactly one message, and touches nothing else but the flag: the file cannot be
-- opened; or the song is heard to its end while no round sees the flag set; or it is heard up to the
-- first round that sees it, and the flag is taken back.
pub play_song-Plays : (rm : RManager) (song : Song) → Plays rm song (play_song rm song)
unfolding play_song play_opened behind
play_song-Plays rm song = elim (Bool-cases song.opens) [
  | inr closed ↦ simp (closed, play_opened) (unopened closed)
  | inl opens ↦
      let (p, h, e) = play_frames-Heard song.frames rm.server.stop [] in
      simp (opens, e, play_opened) (heard p opens h)
]
