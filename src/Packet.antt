-- ===== src/Packet.antt =====
-- Common/inc/packet.h and Common/src/packet.c: the wire format. A `u8` or `uchar` is a number below
-- 256. `htonl` and `ntohl` depend on the byte order of the host, and so does a `memcpy` of a `u32`.
-- `malloc` gives a buffer.
pub mod Bytes
pub mod RoundTrip
pub mod Resend
use music_server_app.Base.{
  ℕ, ◌+◌, ◌-◌, ◌%◌, ◌^◌, Bool, true, false, ◌&&◌, Option, none, some, List, [], ◌∷◌, ◌++◌, Outcome,
  g_ok, g_fail, if◌then◌else◌, ltb, ◌==◌, u32_add, u32_sub, length, take, drop, not,
}
use music_server_app.Base.Run.{Run, ok, fault, null_deref, out_of_bounds, ◌>>=◌, ◌>>◌, require}
use Bytes.{ByteOrder, memory, from_memory, htonl, ntohl}

abbrev pub signature_byte : ℕ
signature_byte = 0x55

abbrev pub header_size : ℕ
header_size = 12

abbrev pub decoded_header_size : ℕ
decoded_header_size = 7

-- `msg_type_t`, by its numbers.
abbrev pub register_m : ℕ
register_m = 1

abbrev pub deregister_m : ℕ
deregister_m = 2

abbrev pub add_m : ℕ
add_m = 3

abbrev pub delete_m : ℕ
delete_m = 4

abbrev pub res_ok_m : ℕ
res_ok_m = 6

abbrev pub res_err_m : ℕ
res_err_m = 7

abbrev pub get_file_m : ℕ
get_file_m = 8

abbrev pub client_add_m : ℕ
client_add_m = 9

abbrev pub client_current_playing_m : ℕ
client_current_playing_m = 10

abbrev pub client_delete_all_data_id_m : ℕ
client_delete_all_data_id_m = 11

abbrev pub client_delete_req_m : ℕ
client_delete_req_m = 12

abbrev pub client_update_all : ℕ
client_update_all = 13

pub record Header : Type 0 where
  pub total_size : ℕ
  pub token : ℕ
  pub msg_id : ℕ
  pub clnt_id : ℕ
  pub signature : ℕ
  pub is_last : ℕ

-- `payload` is `none` where the pointer is `NULL`.
pub record ClntData : Type 0 where
  pub header : Header
  pub open header use *
  pub payload : Option (List ℕ)
  pub payload_size : ℕ

-- The header in the buffer, and the struct with its two words left in network order.
unfoldable pub encode_header : ByteOrder → Header → Header × List ℕ
encode_header order head =
    let total = htonl order head.total_size in
    let tok = htonl order head.token in
    (
      record head { total_size = total; token = tok },
      head.signature
          ∷ (memory order total
              ++ (head.msg_id ∷ head.clnt_id ∷ (memory order tok ++ (head.is_last ∷ [])))),
    )

-- `memcpy(buf + HEADER_SIZE, msg->payLoad, msg->payloadSize)`
unfoldable pub copy_payload : Option (List ℕ) → ℕ → Run (List ℕ)
copy_payload payload size = if size == 0 then ok [] else (elim payload [
  | none ↦ fault null_deref
  | some bytes ↦ require (not (ltb (length bytes) size)) out_of_bounds >> ok (take size bytes)
])

-- The message as the call leaves it, and the packet. Where the total wraps, the buffer is shorter
-- than the header written to it.
unfoldable pub encode_packet : ByteOrder → ClntData → Run (ClntData × List ℕ)
unfolding encode_header
encode_packet order msg = do
  require (ltb (header_size + msg.payload_size) (2 ^ 32)) out_of_bounds
  let total = u32_add header_size msg.payload_size
  let (head, bytes) = encode_header order (record msg.header { total_size = total })
  content ← copy_payload msg.payload msg.payload_size
  ok (record msg { header = head }, bytes ++ content)

-- The seven bytes that follow signature and length.
unfoldable pub decode_header : ByteOrder → List ℕ → Header → Run Header
decode_header order (m ∷ c ∷ t0 ∷ t1 ∷ t2 ∷ t3 ∷ l ∷ rest) head = ok (record head {
  msg_id = m;
  clnt_id = c;
  token = ntohl order (from_memory order t0 t1 t2 t3);
  is_last = l;
})
decode_header order _ head = fault out_of_bounds

-- `tempSize > 0` for the `int` that holds `size - DECODED_HEADER_SIZE`
abbrev pub is_positive_int : ℕ → Bool
is_positive_int n = ltb 0 n && ltb n (2 ^ 31)

unfoldable pub decode_payload : ClntData → List ℕ → ℕ → Run (Outcome × ClntData)
decode_payload msg buf temp_size =
    if is_positive_int temp_size
    then (require (not (ltb (length buf) (decoded_header_size + temp_size))) out_of_bounds
        >> ok (
          g_ok,
          record msg {
            payload = some (take temp_size (drop decoded_header_size buf));
            payload_size = temp_size;
          },
        ))
    else ok (g_ok, record msg { payload_size = 0 })

unfoldable pub decode_packet : ByteOrder → ClntData → Option (List ℕ) → ℕ → Run (Outcome × ClntData)
decode_packet order msg none size = ok (g_fail, msg)
decode_packet order msg (some buf) size = do
  head ← decode_header order buf msg.header
  decode_payload (record msg { header = head }) buf (u32_sub size decoded_header_size)

-- The static `token`.
unfoldable pub get_new_token : ℕ → ℕ × ℕ
get_new_token token = let next = u32_add token 1 in (next, next)
