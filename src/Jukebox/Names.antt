-- ===== src/Jukebox/Names.antt =====
-- `checkMP3File` and `filterDirectory` of MusicServer/src/jukebox.c: what the tests on names mean.
use music_server_app.Base.{
  ℕ, ◌-◌, ◌<◌, ◌≡◌, ◌≢◌, ◌↔◌, inl, inr, refl, sym, ap, arith, true, false, List, [], ◌∷◌, ◌++◌, ltb,
  ◌==◌, length, take, drop, Bool-cases, length-append, take-take-drop, length-take,
  drop-length_append, ==_refl, ==_iff, All,
}
use music_server_app.Jukebox.{
  Entry, same_string, mp3_suffix, check_mp3_file, filter_directory, scandir,
}

same_string_sound : (xs ys : List ℕ) → same_string xs ys ≡ true → xs ≡ ys
unfolding same_string
same_string_sound [] [] e = refl
same_string_sound [] (y ∷ ys) e = cc
same_string_sound (x ∷ xs) [] e = cc
same_string_sound (x ∷ xs) (y ∷ ys) e = elim (Bool-cases (x == y)) [
  | inl same ↦
      let heads : x ≡ y = (==_iff x y).0 same in
      let tails : xs ≡ ys = same_string_sound xs ys (rw same at e) in rw (heads, tails) refl
  | inr different ↦ absurd (let no : false ≡ true = rw different at e in cc)
]

same_string_refl : (xs : List ℕ) → same_string xs xs ≡ true
unfolding same_string
same_string_refl [] = refl
same_string_refl (x ∷ xs) = rw (==_refl x) (same_string_refl xs)

-- `checkMP3File` accepts exactly the names of at least one byte with ".mp3" behind.
pub check_mp3_file_iff :
    (name : List ℕ)
    → (check_mp3_file name ≡ true)
      ↔ ((stem : List ℕ) × (0 < length stem) × (name ≡ stem ++ mp3_suffix))
unfolding check_mp3_file
check_mp3_file_iff name = (to, from)
  where
    to :
        check_mp3_file name ≡ true
        → (stem : List ℕ) × (0 < length stem) × (name ≡ stem ++ mp3_suffix)
    to e = elim (Bool-cases (ltb (length name) 5)) [
      | inl short ↦ absurd (let no : false ≡ true = rw short at e in cc)
      | inr long ↦
          let tail = same_string_sound (drop (length name - 4) name) mp3_suffix (rw long at e) in
          let split = take-take-drop (length name - 4) name in
          (
            take (length name - 4) name,
            ground (arith, long, length-take (length name - 4) name (omega arith)),
            rw tail at (sym split),
          )
    ]

    from :
        (stem : List ℕ) × (0 < length stem) × (name ≡ stem ++ mp3_suffix)
        → check_mp3_file name ≡ true
    from (stem, positive, same) =
        let l = length-append stem mp3_suffix in
        let front : length name - 4 ≡ length stem = omega (arith, ap length same, l) in
        let long : ltb (length name) 5 ≡ false = ground (arith, ap length same, l, positive) in
        rw (long, front, same, drop-length_append stem mp3_suffix) (same_string_refl mp3_suffix)

filter_directory_lem :
    (e : Entry) → filter_directory e ≡ true → (e.d_name ≢ 46 ∷ []) × (e.d_name ≢ 46 ∷ 46 ∷ [])
unfolding filter_directory same_string
filter_directory_lem e kept = (
  λ same. let no : false ≡ true = rw same at kept in cc,
  λ same. let no : false ≡ true = rw same at kept in cc,
)

-- What `scandir` keeps is neither the directory itself nor the one above it.
pub scandir-All :
    (es : List Entry)
    → All (λ e. (e.d_name ≢ 46 ∷ []) × (e.d_name ≢ 46 ∷ 46 ∷ [])) (scandir filter_directory es)
unfolding scandir
scandir-All [] = tt
scandir-All (e ∷ es) = elim (Bool-cases (filter_directory e)) [
  | inl kept ↦ rw kept (filter_directory_lem e kept, scandir-All es)
  | inr dropped ↦ rw dropped (scandir-All es)
]
