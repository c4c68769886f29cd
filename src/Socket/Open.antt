-- ===== src/Socket/Open.antt =====
-- Sockets that Common/src/gsocket.c opens. What the system calls answer is the record `SystemCalls`.
use music_server_app.Base.{
  ℕ, ◌≡◌, ◌⊎◌, inl, inr, Bool, true, false, Option, none, some, List, [], ◌∷◌, Outcome, g_ok,
  g_fail, is_g_ok, if◌then◌else◌, ◌==◌, Bool-cases, Option-cases,
}
use music_server_app.Base.Run.{Run, ok, fault, null_deref, ◌>>=◌}

-- `none` is a negative descriptor, an address that `inet_addr` refuses or `gethostbyname` does not
-- find; `host` is the first address of the host, byte by byte.
pub record SystemCalls : Type 0 where
  pub socket : Option ℕ
  pub address_is_valid : Bool
  pub ioctl_succeeds : Bool
  pub connects : Bool
  pub select_succeeds : Bool
  pub binds : Bool
  pub inet_address : Option ℕ
  pub host : Option (List ℕ)

-- With a descriptor below 0 there is no call.
unfoldable pub set_socket_blocking_enabled : SystemCalls → Option ℕ → Outcome
set_socket_blocking_enabled c none = g_fail
set_socket_blocking_enabled c (some fd) = if c.ioctl_succeeds then g_ok else g_fail

-- The number of `G_FAIL`.
abbrev pub g_fail_number : ℕ
g_fail_number = 2

-- The descriptor, or `none` for -1. Where `ioctl` fails the answer is `G_FAIL`, which is a descriptor.
unfoldable pub create_client_socket : SystemCalls → Option ℕ
unfolding set_socket_blocking_enabled
create_client_socket c = elim c.socket [
  | none ↦ none
  | some fd ↦
      if c.address_is_valid
      then (if is_g_ok (set_socket_blocking_enabled c (some fd))
          then (if c.connects then some fd else if c.select_succeeds then some fd else none)
          else some g_fail_number)
      else none
]

-- A host's address is read as one `char`, which is unsigned on ARM, so it is never `INADDR_NONE`.
unfoldable pub get_ip_address : SystemCalls → Run ℕ
get_ip_address c = elim c.inet_address [
  | some a ↦ ok a
  | none ↦ elim c.host [
    | none ↦ fault null_deref
    | some bytes ↦ elim bytes [ [] ↦ fault null_deref | b ∷ bs ↦ ok b ]
  ]
]

-- Only whether the address is 0 matters: the socket is bound to every address.
unfoldable pub create_server_socket : SystemCalls → Run (Option ℕ)
create_server_socket c = do
  ip ← get_ip_address c
  ok (
      if ip == 0
      then none
      else elim c.socket [ none ↦ none | some fd ↦ if c.binds then some fd else none ])

-- What an answer of `createClientSocket` means.
pub data Opened (c : SystemCalls) : Option ℕ → Type 0 where
  refused : Opened c none
  connected :
      {fd : ℕ}
      → c.socket ≡ some fd
      → (c.connects ≡ true) ⊎ (c.select_succeeds ≡ true)
      → Opened c (some fd)
  misread : {fd : ℕ} → c.socket ≡ some fd → c.ioctl_succeeds ≡ false → Opened c (some g_fail_number)

-- `createClientSocket` answers -1, or a socket that is connected or can be written; but where `ioctl`
-- fails on the new socket, it answers 2, the number of `G_FAIL`, which callers take for a socket.
pub create_client_socket-Opened : (c : SystemCalls) → Opened c (create_client_socket c)
unfolding create_client_socket set_socket_blocking_enabled
create_client_socket-Opened c = elim (Option-cases c.socket) [
  | inl e ↦ simp (e, create_client_socket) refused
  | inr (fd, e) ↦ elim (Bool-cases c.address_is_valid) [
    | inr bad ↦ simp (e, bad, create_client_socket) refused
    | inl valid ↦ elim (Bool-cases c.ioctl_succeeds) [
      | inr fails ↦ simp (e, valid, fails, create_client_socket) (misread e fails)
      | inl works ↦ elim (Bool-cases c.connects) [
        | inl there ↦ simp (e, valid, works, there, create_client_socket) (connected e (inl there))
        | inr not_yet ↦ elim (Bool-cases c.select_succeeds) [
          | inl later ↦
              simp (e, valid, works, not_yet, later, create_client_socket) (connected e (inr later))
          | inr never ↦ simp (e, valid, works, not_yet, never, create_client_socket) refused
        ]
      ]
    ]
  ]
]
