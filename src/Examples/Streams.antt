-- ===== src/Examples/Streams.antt =====
-- Streams that `handleClient` of MusicServer/src/serverRoutine.c reads.
use music_server_app.Base.{◌≡◌, refl, none, [], ◌∷◌, arith}
use music_server_app.Base.Run.{fault, out_of_bounds}
use music_server_app.Packet.{signature_byte}
use music_server_app.Packet.Bytes.{little}
use music_server_app.Packet.RoundTrip.{Carries, full}
use music_server_app.ClientDb.{ClntMsg}
use music_server_app.ServerRoutine.{receive_packet}
use music_server_app.ServerRoutine.Framing.{receive_packet_overreads}
use music_server_app.Examples.World.{add_message, song_bytes, message}

abbrev connected : ClntMsg
connected = message 0 none 0

content : Carries add_message song_bytes
content = full refl refl

receive_packet_overreads_example :
    receive_packet little connected (signature_byte ∷ 0 ∷ 0 ∷ 0 ∷ 6 ∷ 1 ∷ []) ≡ fault out_of_bounds
receive_packet_overreads_example =
    receive_packet_overreads little connected 0 0 0 6 (1 ∷ []) (omega arith) (omega arith)
      (omega arith) (omega arith) (omega arith) (omega arith) (omega arith)
