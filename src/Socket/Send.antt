-- ===== src/Socket/Send.antt =====
-- `sendData` of Common/src/gsocket.c: what of a buffer goes through the socket.
use mathlib.Core.List.{append-nil, append_assoc}
use music_server_app.Base.{
  ℕ, zero, suc, ◌≤◌, ◌<◌, ◌≡◌, ◌≢◌, ◌⊎◌, inl, inr, refl, sym, ap, ◌∙◌, List, [], ◌∷◌, ◌++◌, arith,
  length, take, drop, length-append, take-take-drop, length-drop,
}
use music_server_app.Base.Run.{Returns}
use music_server_app.Socket.{
  Event, select_fails, timed_out, not_set, call_fails, chunk, room, Moved, send_loop, send_data,
}

-- The rounds in which the socket can be written, or `select` gives up.
abbrev pub attempts : List Event → ℕ
attempts [] = 0
attempts (not_set ∷ es) = attempts es
attempts (chunk l ∷ es) = attempts es
attempts (_ ∷ es) = suc (attempts es)

-- What has been sent is the front of the buffer. The answer is its length, or 0 after an error; the
-- whole buffer has been sent exactly where the answer is its size.
pub record Sent (buf : List ℕ) (m : Moved) : Type 0 where
  pub unsent : List ℕ
  pub front : m.bytes ++ unsent ≡ buf
  pub answer_is : (m.answer ≡ 0) ⊎ (m.answer ≡ length m.bytes)
  pub whole : m.answer ≡ length buf → m.bytes ≡ buf
  pub missing : m.answer < length buf → m.bytes ≢ buf

-- Nothing is left of a buffer whose front is as long as the buffer.
front_whole : (xs ys buf : List ℕ) → xs ++ ys ≡ buf → length xs ≡ length buf → xs ≡ buf
front_whole xs [] buf e l = sym (append-nil xs) ∙ e
front_whole xs (y ∷ ys) buf e l = absurd (omega (arith, length-append xs (y ∷ ys), ap length e, l))

module _ {buf : List ℕ} (sent left : List ℕ) (e : sent ++ left ≡ buf) (rest : List Event) where
  Sent-answered : Sent buf (record { answer = length sent; bytes = sent; rest = rest })
  Sent-answered = record {
    unsent = left;
    front = e;
    answer_is = inr refl;
    whole = λ l. front_whole sent left buf e l;
    missing = λ l same. absurd (omega (arith, ap length same, l));
  }

  Sent-failed : 0 < length left → Sent buf (record { answer = 0; bytes = sent; rest = rest })
  Sent-failed h = record {
    unsent = left;
    front = e;
    answer_is = inl refl;
    whole = λ l. absurd (omega (arith, length-append sent left, ap length e, l, h));
    missing =
        λ l same. absurd (omega (arith, length-append sent left, ap length e, ap length same, h));
  }

send_loop-Sent :
    {buf : List ℕ} (es : List Event) (sent left : List ℕ)
    → sent ++ left ≡ buf
    → length left ≤ attempts es
    → Returns (Sent buf) (send_loop es sent left)
unfolding send_loop
send_loop-Sent es sent [] e n = Sent-answered sent [] e es
send_loop-Sent [] sent (b ∷ left) e n = absurd (omega (arith, n))
send_loop-Sent (select_fails ∷ es) sent (b ∷ left) e n =
    Sent-failed sent (b ∷ left) e es (omega arith)
send_loop-Sent (timed_out ∷ es) sent (b ∷ left) e n = Sent-failed sent (b ∷ left) e es (omega arith)
send_loop-Sent (call_fails ∷ es) sent (b ∷ left) e n =
    Sent-failed sent (b ∷ left) e es (omega arith)
send_loop-Sent (not_set ∷ es) sent (b ∷ left) e n = send_loop-Sent es sent (b ∷ left) e n
send_loop-Sent (chunk l ∷ es) sent (b ∷ left) e n = send_loop-Sent es sent (b ∷ left) e n
send_loop-Sent (room zero ∷ es) sent (b ∷ left) e n = Sent-answered sent (b ∷ left) e (room 0 ∷ es)
send_loop-Sent (room (suc k) ∷ es) sent (b ∷ left) e n =
    send_loop-Sent es (sent ++ (b ∷ take k left)) (drop k left)
      (append_assoc sent (b ∷ take k left) (drop k left)
        ∙ ap (λ l. sent ++ (b ∷ l)) (take-take-drop k left)
        ∙ e)
      (omega (arith, length-drop k left, n))

-- A call of `sendData` ends after as many rounds as the buffer has bytes, of those in which the socket
-- can be written or `select` gives up. What has been sent is the front of the buffer. The answer is
-- its length, or 0 after an error. An answer of the buffer's size says that all of it is sent, and a
-- smaller one that it is not.
pub send_data-Sent :
    (es : List Event) (buf : List ℕ)
    → length buf ≤ attempts es
    → Returns (Sent buf) (send_data es buf)
unfolding send_data
send_data-Sent es buf n = send_loop-Sent es [] buf refl n
