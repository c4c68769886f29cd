-- ===== src/Socket/Receive.antt =====
-- `receiveData` of Common/src/gsocket.c: what it makes of a stream that arrives in pieces.
use mathlib.Core.List.{append-nil, append_assoc}
use music_server_app.Base.{
  ℕ, suc, ◌-◌, ◌≤◌, ◌<◌, ◌≡◌, ◌⊎◌, inl, inr, refl, sym, ap, ◌∙◌, true, false, List, [], ◌∷◌, ◌++◌,
  arith, ltb, length, take, drop, Bool-cases, length-append, take_nil, drop_nil, take-append_short,
  take-append_long, drop-append_short, drop-append_long, length-take, length-drop,
}
use music_server_app.Base.Run.{Returns, Returns-mono}
use music_server_app.Socket.{
  Event, select_fails, timed_out, not_set, call_fails, chunk, room, Moved, receive_loop,
  receive_data,
}

-- The events bring the stream, in pieces of any size, and then the connection is closed.
pub data Delivers : List Event → List ℕ → Type 0 where
  closed : {es : List Event} → Delivers (chunk [] ∷ es) []
  piece :
      {es : List Event} {s : List ℕ} {b : ℕ} {bs : List ℕ}
      → Delivers es s
      → Delivers (chunk (b ∷ bs) ∷ es) (b ∷ (bs ++ s))
  wait : {es : List Event} {s : List ℕ} → Delivers es s → Delivers (not_set ∷ es) s

-- The first `size` bytes of the stream, or all of it, and the events that bring the others.
pub record Takes (stream : List ℕ) (size : ℕ) (got : List ℕ) (m : Moved) : Type 0 where
  pub answer_is : m.answer ≡ length m.bytes
  pub bytes_are : m.bytes ≡ got ++ take (size - length got) stream
  pub rest_is : Delivers m.rest (drop (size - length got) stream)

Delivers-piece :
    {es : List Event} {s : List ℕ} (l : List ℕ)
    → Delivers es s
    → 0 < length l
    → Delivers (chunk l ∷ es) (l ++ s)
Delivers-piece [] d h = absurd (omega (arith, h))
Delivers-piece (b ∷ bs) d h = piece d

-- With all bytes there, the loop has nothing to do.
Takes-done :
    {es : List Event} {stream : List ℕ} (d : Delivers es stream) (size : ℕ) (got : List ℕ)
    → size - length got ≡ 0
    → Takes stream size got (record { answer = length got; bytes = got; rest = es })
Takes-done d size got h = record {
  answer_is = refl;
  bytes_are = rw h (sym (append-nil got));
  rest_is = rw h d;
}

-- The waiting piece has more bytes than are wanted.
Takes-part :
    {es : List Event} {s : List ℕ} (d : Delivers es s) (size : ℕ) (got l : List ℕ)
    → length got ≤ size
    → size - length got < length l
    → Takes (l ++ s) size got (record {
      answer = size;
      bytes = got ++ take (size - length got) l;
      rest = chunk (drop (size - length got) l) ∷ es;
    })
Takes-part {es} {s} d size got l h longer =
    let n : ℕ = size - length got in
    record {
      answer_is =
          omega (arith, length-append got (take n l), length-take n l (omega (arith, longer)));
      bytes_are = rw (take-append_short n l s (omega (arith, longer)));
      rest_is =
          rw (drop-append_short n l s (omega (arith, longer)))
            (Delivers-piece (drop n l) d (omega (arith, length-drop n l, longer)));
    }

-- The waiting piece is taken whole, and more is wanted.
Takes-more :
    (size : ℕ) (got l s : List ℕ) (m : Moved)
    → length l ≤ size - length got
    → Takes s size (got ++ l) m
    → Takes (l ++ s) size got m
Takes-more size got l s m short t =
    let n : ℕ = size - length got in
    let rest : size - length (got ++ l) ≡ n - length l = omega (arith, length-append got l) in
    record {
      answer_is = t.answer_is;
      bytes_are =
          t.bytes_are
          ∙ append_assoc got l (take (size - length (got ++ l)) s)
          ∙ rw (take-append_long n l s short, rest);
      rest_is = rw (drop-append_long n l s short) (rw rest at t.rest_is);
    }

receive_loop-Takes :
    {es : List Event} {stream : List ℕ} (d : Delivers es stream) (size : ℕ) (got : List ℕ)
    → length got ≤ size
    → Returns (Takes stream size got) (receive_loop es size got)
unfolding receive_loop
receive_loop-Takes (closed {es}) size got h = elim (Bool-cases (ltb (length got) size)) [
  | inl more ↦
      let none_left : ltb (size - length got) 0 ≡ false = ground arith in
      rw (more, none_left, receive_loop)
        (record {
          answer_is = refl;
          bytes_are = rw (take_nil (size - length got)) (sym (append-nil got));
          rest_is = rw (drop_nil {A = ℕ} (size - length got)) closed;
        })
  | inr enough ↦ rw (enough, receive_loop) (Takes-done closed size got (ground (arith, h, enough)))
]
receive_loop-Takes (piece {es} {s} {b} {bs} d) size got h =
    elim (Bool-cases (ltb (length got) size)) [
      | inr enough ↦
          rw (enough, receive_loop) (Takes-done (piece d) size got (ground (arith, h, enough)))
      | inl more ↦ elim (Bool-cases (ltb (size - length got) (length (b ∷ bs)))) [
        | inl longer ↦
            rw (more, longer, receive_loop)
              (Takes-part d size got (b ∷ bs) h (ground (arith, longer)))
        | inr short ↦
            let fits : length (b ∷ bs) ≤ size - length got = ground (arith, short) in
            rw (more, short, receive_loop)
              (Returns-mono (Takes s size (got ++ (b ∷ bs))) _ _
                (receive_loop-Takes d size (got ++ (b ∷ bs))
                  (omega (arith, length-append got (b ∷ bs), fits, h)))
                λ m t. Takes-more size got (b ∷ bs) s m fits t)
      ]
    ]
receive_loop-Takes (wait d) size got h = elim (Bool-cases (ltb (length got) size)) [
  | inl more ↦ rw (more, receive_loop) (receive_loop-Takes d size got h)
  | inr enough ↦
      rw (enough, receive_loop) (Takes-done (wait d) size got (ground (arith, h, enough)))
]

-- A call of `receiveData` on a connection that brings the stream, in pieces of any size, ends. It
-- has received the first `size` bytes of the stream, or all of it where that is shorter, it answers
-- their number, and the next call goes on with the rest.
pub receive_data-Takes :
    {es : List Event} {stream : List ℕ}
    → Delivers es stream
    → (size : ℕ)
    → Returns
        (λ m.
          (m.answer ≡ length (take size stream))
          × (m.bytes ≡ take size stream)
          × Delivers m.rest (drop size stream))
        (receive_data es size)
unfolding receive_data
receive_data-Takes d size =
    let all : size - 0 ≡ size = omega arith in
    Returns-mono (Takes _ size []) _ _ (receive_loop-Takes d size [] (omega arith)) λ m t.
      let bytes = rw all at t.bytes_are in
      (t.answer_is ∙ ap length bytes, bytes, rw all at t.rest_is)

-- The rounds in which the socket can be read, or `select` gives up.
abbrev pub attempts : List Event → ℕ
attempts [] = 0
attempts (not_set ∷ es) = attempts es
attempts (room n ∷ es) = attempts es
attempts (_ ∷ es) = suc (attempts es)

-- No more than `size` bytes have come in, and the answer is their number, or 0 after an error.
abbrev pub Within : ℕ → Moved → Type 0
Within size m = (length m.bytes ≤ size) × ((m.answer ≡ 0) ⊎ (m.answer ≡ length m.bytes))

receive_loop-Within :
    (es : List Event) (size : ℕ) (got : List ℕ)
    → length got ≤ size
    → size - length got < attempts es
    → Returns (Within size) (receive_loop es size got)
unfolding receive_loop
receive_loop-Within [] size got h n = absurd (omega (arith, n))
receive_loop-Within (e ∷ es) size got h n = elim (Bool-cases (ltb (length got) size)) [
  | inr enough ↦ rw (enough, receive_loop) (h, inr refl)
  | inl more ↦ go e es n more (λ got'. receive_loop-Within es size got')
]
  where
    go :
        (e : Event) (es : List Event)
        → size - length got < attempts (e ∷ es)
        → ltb (length got) size ≡ true
        → ((got' : List ℕ)
            → length got' ≤ size
            → size - length got' < attempts es
            → Returns (Within size) (receive_loop es size got'))
        → Returns (Within size) (receive_loop (e ∷ es) size got)
    go select_fails es n more rest = rw (more, receive_loop) (h, inl refl)
    go timed_out es n more rest = rw (more, receive_loop) (h, inl refl)
    go call_fails es n more rest = rw (more, receive_loop) (h, inl refl)
    go not_set es n more rest = rw (more, receive_loop) (rest got h n)
    go (room k) es n more rest = rw (more, receive_loop) (rest got h n)
    go (chunk l) es n more rest = elim (Bool-cases (ltb (size - length got) (length l))) [
      | inl longer ↦
          rw (more, longer, receive_loop)
            (let whole : length (got ++ take (size - length got) l) ≡ size = omega (
              arith,
              h,
              length-append got (take (size - length got) l),
              length-take (size - length got) l (ground (arith, longer)),
            ) in
              (omega (arith, whole), inr (sym whole)))
      | inr short ↦ chunk_taken l n more short
    ]
      where
        chunk_taken :
            (l : List ℕ)
            → size - length got < suc (attempts es)
            → ltb (length got) size ≡ true
            → ltb (size - length got) (length l) ≡ false
            → Returns (Within size) (receive_loop (chunk l ∷ es) size got)
        chunk_taken [] n more short = rw (more, short, receive_loop) (h, inr refl)
        chunk_taken (b ∷ bs) n more short =
            let longer = length-append got (b ∷ bs) in
            let fits : length (b ∷ bs) ≤ size - length got = ground (arith, short) in
            rw (more, short, receive_loop)
              (rest (got ++ (b ∷ bs)) (omega (arith, longer, fits, h))
                (omega (arith, longer, fits, h, n)))

-- After at most `size + 1` rounds in which the socket can be read, or `select` gives up, a call of
-- `receiveData` has ended, with at most `size` bytes in the buffer; it answers their number, or 0
-- after an error.
pub receive_data_ends :
    (es : List Event) (size : ℕ) → size < attempts es → Returns (Within size) (receive_data es size)
unfolding receive_data
receive_data_ends es size n = receive_loop-Within es size [] (omega arith) (omega (arith, n))
