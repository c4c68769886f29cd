-- ===== src/ResourceManager/Loaded.antt =====
-- The loop of `getMP3FileFromClient` of MusicServer/src/serverRoutine.c that loads the file.
use mathlib.Core.List.{append-nil, append_assoc}
use music_server_app.Base.{
  ℕ, zero, suc, ◌+◌, ◌-◌, ◌≤◌, ◌<◌, ◌≡◌, inl, inr, refl, ap, ◌∙◌, arith, Bool, true, false, List,
  [], ◌∷◌, ◌++◌, leb, ltb, length, take, drop, ==_refl, Bool-cases, length-append, length-take,
  length-drop, take_whole, take_nil,
}
use music_server_app.Base.Run.{ok, Returns, Returns-value, Returns-mono, ◌>>=◌}
use music_server_app.Socket.{Event, Moved, receive_data}
use music_server_app.Socket.Receive.{Delivers, receive_data-Takes}
use music_server_app.ResourceManager.Download.{download_loop, current_read, is_complete}

-- With the bytes of the file that are still to come in `stream`: all of them came, or too few.
pub data Loaded (stream : List ℕ) (file_size : ℕ) (got : List ℕ) : Bool × List ℕ → Type 0 where
  whole :
      file_size - length got ≤ length stream
      → Loaded stream file_size got (true, got ++ take (file_size - length got) stream)
  part :
      {some_of : List ℕ}
      → length stream < file_size - length got
      → Loaded stream file_size got (false, some_of)

-- Taking on behind what was taken.
take_more : (n m k : ℕ) (xs : List ℕ) → n + m ≡ k → take n xs ++ take m (drop n xs) ≡ take k xs
take_more zero m k xs e = let same : m ≡ k = omega (arith, e) in rw same refl
take_more (suc n) m zero xs e = absurd (omega (arith, e))
take_more (suc n) m (suc k) [] e = take_nil m
take_more (suc n) m (suc k) (x ∷ xs) e = ap (λ l. x ∷ l) (take_more n m k xs (omega (arith, e)))

-- Moving on by one read.
Loaded-next :
    (stream : List ℕ) (file_size : ℕ) (got : List ℕ) (n : ℕ) (r : Bool × List ℕ)
    → n ≤ file_size - length got
    → n ≤ length stream
    → Loaded (drop n stream) file_size (got ++ take n stream) r
    → Loaded stream file_size got r
Loaded-next stream file_size got n _ near there (whole h) =
    let left : file_size - length (got ++ take n stream) ≡ file_size - length got - n =
      omega (arith, length-append got (take n stream), length-take n stream there) in
    let again : n + (file_size - length got - n) ≡ file_size - length got = omega (arith, near) in
    let same : (got ++ take n stream)
          ++ take (file_size - length (got ++ take n stream)) (drop n stream)
        ≡ got ++ take (file_size - length got) stream =
      append_assoc got (take n stream)
        (take (file_size - length (got ++ take n stream)) (drop n stream))
      ∙ ap (λ l. got ++ l)
          (rw left
            (take_more n (file_size - length got - n) (file_size - length got) stream again)) in
    rw same (whole (omega (arith, h, left, near, there, length-drop n stream)))
Loaded-next stream file_size got n _ near there (part h) = part (
    omega (
      arith,
      h,
      near,
      there,
      length-append got (take n stream),
      length-take n stream there,
      length-drop n stream,
    ))

current_read-le : (n total : ℕ) → current_read n total ≤ n - total
unfolding current_read
current_read-le n total = elim (Bool-cases (leb 4096 (n - total))) [
  | inl e ↦ rw e (ground (arith, e))
  | inr e ↦ rw e (omega arith)
]

current_read_positive : (n total : ℕ) → total < n → 0 < current_read n total
unfolding current_read
current_read_positive n total h = elim (Bool-cases (leb 4096 (n - total))) [
  | inl e ↦ rw e (omega arith)
  | inr e ↦ rw e (omega (arith, h))
]

-- Nothing is left to come.
Loaded-done :
    (stream : List ℕ) (file_size : ℕ) (got : List ℕ)
    → ltb (length got) file_size ≡ false
    → Loaded stream file_size got (true, got)
Loaded-done stream file_size got e =
    let none_left : file_size - length got ≡ 0 = ground (arith, e) in
    let same : got ++ take (file_size - length got) stream ≡ got = rw none_left (append-nil got) in
    let all : Loaded stream file_size got (true, got ++ take (file_size - length got) stream) =
      whole (omega (arith, none_left)) in
    rw same at all

is_complete_all : (m : Moved) (n : ℕ) → m.answer ≡ n → is_complete m n ≡ true
unfolding is_complete
is_complete_all m n e = rw e (==_refl n)

is_complete_not : (m : Moved) (n : ℕ) → m.answer < n → is_complete m n ≡ false
unfolding is_complete
is_complete_not m n h = ground arith

pub download_loop-Loaded :
    (fuel : ℕ) {es : List Event} {stream : List ℕ}
    → Delivers es stream
    → (file_size : ℕ) (got : List ℕ) → length got ≤ file_size
    → file_size - length got ≤ fuel
    → Returns (Loaded stream file_size got) (download_loop fuel es file_size got)
unfolding download_loop
download_loop-Loaded zero {es} {stream} d file_size got near enough =
    let done : ltb (length got) file_size ≡ false = ground (arith, enough) in
    rw done (Loaded-done stream file_size got done)
download_loop-Loaded (suc fuel) {es} {stream} d file_size got near enough =
    elim (Bool-cases (ltb (length got) file_size)) [
      | inr done ↦ rw (done, download_loop) (Loaded-done stream file_size got done)
      | inl more ↦
          let (m, e, (answer, bytes, rest)) =
            Returns-value _ (receive_data es (current_read file_size (length got)))
              (receive_data-Takes d (current_read file_size (length got))) in
          go m e answer bytes more λ near' enough'.
            download_loop-Loaded fuel rest file_size
              (got ++ take (current_read file_size (length got)) stream) near' enough'
    ]
  where
    go :
        (m : Moved) (e : receive_data es (current_read file_size (length got)) ≡ ok m)
        → m.answer ≡ length (take (current_read file_size (length got)) stream)
        → m.bytes ≡ take (current_read file_size (length got)) stream
        → ltb (length got) file_size ≡ true
        → (length (got ++ take (current_read file_size (length got)) stream) ≤ file_size
            → file_size - length (got ++ take (current_read file_size (length got)) stream) ≤ fuel
            → Returns
                (Loaded
                  (drop (current_read file_size (length got)) stream)
                  file_size
                  (got ++ take (current_read file_size (length got)) stream))
                (download_loop fuel m.rest file_size
                  (got ++ take (current_read file_size (length got)) stream)))
        → Returns (Loaded stream file_size got) (download_loop (suc fuel) es file_size got)
    go m e answer bytes more next =
        let n : ℕ = current_read file_size (length got) in
        let within : n ≤ file_size - length got = current_read-le file_size (length got) in
        let some_read : 0 < n =
          current_read_positive file_size (length got) (ground (arith, more)) in
        elim (Bool-cases (ltb (length stream) n)) [
          | inl short ↦
              let few : is_complete m n ≡ false = is_complete_not m n (
                ground (
                  arith,
                  short,
                  answer ∙ ap length (take_whole n stream (ground (arith, short))),
                )) in
              rw (more, e, few, download_loop, ◌>>=◌) (part (ground (arith, short, within)))
          | inr long ↦
              let there : n ≤ length stream = ground (arith, long) in
              let taken = length-take n stream there in
              let longer = length-append got (take n stream) in
              let same : is_complete m n ≡ true = is_complete_all m n (answer ∙ taken) in
              let written : take m.answer m.bytes ≡ take n stream =
                rw (answer, taken, bytes) (take_whole n (take n stream) (omega (arith, taken))) in
              rw (more, e, same, written, download_loop, ◌>>=◌)
                (Returns-mono (Loaded (drop n stream) file_size (got ++ take n stream)) _ _
                  (next (omega (arith, longer, taken, within, near))
                    (omega (arith, longer, taken, within, some_read, enough)))
                  λ r l. Loaded-next stream file_size got n r within there l)
        ]
