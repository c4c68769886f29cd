-- ===== src/Socket.antt =====
-- Common/src/gsocket.c: the loops that move a whole buffer through a socket. What `select`, `recv` and
-- `write` answer, round by round, is the list of events that a call is given.
pub mod Receive
pub mod Send
pub mod Open
use music_server_app.Base.{
  ℕ, zero, suc, ◌+◌, ◌-◌, Bool, true, false, List, [], ◌∷◌, ◌++◌, if◌then◌else◌, ltb, ◌==◌, length,
  take, drop,
}
use music_server_app.Base.Run.{Run, ok, fault, out_of_fuel}

-- One round of a loop. `chunk` is what has come in and waits for `recv`, none of it when the peer
-- has closed the connection; `room` is the number of bytes that `write` would take, none when the
-- peer is gone; `call_fails` is a negative answer of `recv` or `write`. A descriptor that can only be
-- written is not set for a reader, nor one that can only be read for a writer.
pub data Event : Type 0 where
  select_fails timed_out not_set call_fails : Event
  chunk : List ℕ → Event
  room : ℕ → Event

-- The answer of a call, the bytes that have gone through the socket, and the events that are left.
pub record Moved : Type 0 where
  pub answer : ℕ
  pub bytes : List ℕ
  pub rest : List Event

abbrev pub moved : ℕ → List ℕ → List Event → Run Moved
moved n bytes es = ok (record { answer = n; bytes = bytes; rest = es })

-- The loop of `receiveData` with the bytes received so far. A closed connection stays closed. Where
-- the events end the call still waits.
unfoldable pub receive_loop : List Event → ℕ → List ℕ → Run Moved
receive_loop [] size got =
    if ltb (length got) size then fault out_of_fuel else moved (length got) got []
receive_loop (e ∷ es) size got = elim (ltb (length got) size) [
  | false ↦ moved (length got) got (e ∷ es)
  | true ↦ elim e [
    | select_fails ↦ moved 0 got es
    | timed_out ↦ moved 0 got es
    | call_fails ↦ moved 0 got es
    | not_set ↦ receive_loop es size got
    | room n ↦ receive_loop es size got
    | chunk bytes ↦ elim (ltb (size - length got) (length bytes)) [
      | true ↦
          moved size (got ++ take (size - length got) bytes)
            (chunk (drop (size - length got) bytes) ∷ es)
      | false ↦ elim bytes [
        | [] ↦ moved (length got) got (chunk [] ∷ es)
        | b ∷ bs ↦ receive_loop es size (got ++ (b ∷ bs))
      ]
    ]
  ]
]

unfoldable pub receive_data : List Event → ℕ → Run Moved
unfolding receive_loop
receive_data es size = receive_loop es size []

-- The loop of `sendData` with the bytes sent so far; the third argument is what is left of the buffer.
unfoldable pub send_loop : List Event → List ℕ → List ℕ → Run Moved
send_loop es sent [] = moved (length sent) sent es
send_loop [] sent (b ∷ left) = fault out_of_fuel
send_loop (e ∷ es) sent (b ∷ left) = elim e [
  | select_fails ↦ moved 0 sent es
  | timed_out ↦ moved 0 sent es
  | call_fails ↦ moved 0 sent es
  | not_set ↦ send_loop es sent (b ∷ left)
  | chunk bytes ↦ send_loop es sent (b ∷ left)
  | room n ↦ elim n [
    | zero ↦ moved (length sent) sent (room 0 ∷ es)
    | suc k ↦ send_loop es (sent ++ take (suc k) (b ∷ left)) (drop (suc k) (b ∷ left))
  ]
]

-- `sendData` of a buffer of `size` bytes.
unfoldable pub send_data : List Event → List ℕ → Run Moved
unfolding send_loop
send_data es buf = send_loop es [] buf
