-- ===== src/Base/Words.antt =====
-- Machine words and the constants of Common/inc/results.h and MusicServer/inc/commonInclude.h.
use Prim.Native.Nat.{ℕ, ◌+◌, ◌-◌, ◌%◌, ◌^◌}
use mathlib.Core.Bool.{Bool, not}
use music_server_app.Base.Tests.{ltb}

-- RESULT
pub data Outcome : Type 0 where
  g_ok g_err g_fail : Outcome

abbrev pub is_g_ok : Outcome → Bool
is_g_ok g_ok = Bool.true
is_g_ok g_err = Bool.false
is_g_ok g_fail = Bool.false

abbrev pub max_client : ℕ
max_client = 10

abbrev pub max_client_name : ℕ
max_client_name = 128

-- Unsigned arithmetic of 32 bits wraps.
abbrev pub u32_add : ℕ → ℕ → ℕ
u32_add a b = (a + b) % 2 ^ 32

abbrev pub u32_sub : ℕ → ℕ → ℕ
u32_sub a b = (a + 2 ^ 32 - b) % 2 ^ 32

-- `c >= MAX_CLIENT` for a `char`. The Makefiles build for ARM, where a plain `char` is unsigned: it
-- has the values 0 to 255, and -1 is stored as 255.
abbrev pub ge_max_client : ℕ → Bool
ge_max_client c = not (ltb c max_client)

-- An index that an array of `MAX_CLIENT` elements has.
abbrev pub in_array : ℕ → Bool
in_array c = ltb c max_client
