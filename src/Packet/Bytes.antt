-- ===== src/Packet/Bytes.antt =====
-- A `u32` in memory, `htonl` and `ntohl`, for a host of either byte order.
use music_server_app.Base.{ℕ, ◌+◌, ◌*◌, ◌/◌, ◌%◌, ◌^◌, ◌<◌, ◌≡◌, refl, List, [], ◌∷◌, arith}

pub data ByteOrder : Type 0 where
  little big : ByteOrder

-- Byte `k` of a word, from the least significant.
abbrev pub byte : ℕ → ℕ → ℕ
byte k v = v / 2 ^ (8 * k) % 256

abbrev pub word : ℕ → ℕ → ℕ → ℕ → ℕ
word b3 b2 b1 b0 = ((b3 * 256 + b2) * 256 + b1) * 256 + b0

-- Most significant first, the order of the network.
abbrev pub big_endian : ℕ → List ℕ
big_endian v = byte 3 v ∷ byte 2 v ∷ byte 1 v ∷ byte 0 v ∷ []

abbrev pub little_endian : ℕ → List ℕ
little_endian v = byte 0 v ∷ byte 1 v ∷ byte 2 v ∷ byte 3 v ∷ []

-- `memcpy(buff, &v, 4)`
unfoldable pub memory : ByteOrder → ℕ → List ℕ
memory little v = little_endian v
memory big v = big_endian v

-- `memcpy(&v, buff, 4)`
unfoldable pub from_memory : ByteOrder → ℕ → ℕ → ℕ → ℕ → ℕ
from_memory little a b c d = word d c b a
from_memory big a b c d = word a b c d

unfoldable pub swap_bytes : ℕ → ℕ
swap_bytes v = word (byte 0 v) (byte 1 v) (byte 2 v) (byte 3 v)

unfoldable pub htonl : ByteOrder → ℕ → ℕ
unfolding swap_bytes
htonl little v = swap_bytes v
htonl big v = v

unfoldable pub ntohl : ByteOrder → ℕ → ℕ
unfolding htonl
ntohl order v = htonl order v

pub swap_bytes_twice : (v : ℕ) → v < 2 ^ 32 → swap_bytes (swap_bytes v) ≡ v
unfolding swap_bytes
swap_bytes_twice v h = omega arith

pub little_endian-swap_bytes : (v : ℕ) → little_endian (swap_bytes v) ≡ big_endian v
unfolding swap_bytes
little_endian-swap_bytes v = ground arith

pub swap_bytes-lt : (v : ℕ) → swap_bytes v < 2 ^ 32
unfolding swap_bytes
swap_bytes-lt v = omega arith

-- On any host `htonl` and a copy give the network's order.
pub memory-htonl : (order : ByteOrder) (v : ℕ) → memory order (htonl order v) ≡ big_endian v
unfolding memory htonl
memory-htonl ByteOrder.little v = little_endian-swap_bytes v
memory-htonl ByteOrder.big v = refl

pub ntohl-from_memory :
    (order : ByteOrder) (a b c d : ℕ)
    → a < 256
    → b < 256
    → c < 256
    → d < 256
    → ntohl order (from_memory order a b c d) ≡ word a b c d
unfolding ntohl from_memory
ntohl-from_memory ByteOrder.little a b c d ha hb hc hd = omega arith
ntohl-from_memory ByteOrder.big a b c d ha hb hc hd = refl

pub word-bytes : (v : ℕ) → v < 2 ^ 32 → word (byte 3 v) (byte 2 v) (byte 1 v) (byte 0 v) ≡ v
word-bytes v h = omega arith
