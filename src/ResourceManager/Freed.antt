-- ===== src/ResourceManager/Freed.antt =====
-- The `delete_m` branch of `servClientRequest` in MusicServer/src/resourceManager.c for a client's last
-- message.
use music_server_app.Base.{ℕ, ◌+◌, ◌^◌, ◌<◌, ◌≡◌, refl, true, List, arith, g_ok, ◌==◌}
use music_server_app.Base.Run.{Run, ok, fault, use_after_free, ◌>>=◌, Returns}
use music_server_app.Packet.{header_size, res_ok_m}
use music_server_app.ClientDb.{Server, ClntMsg}
use music_server_app.ClientDb.Slots.{delete_from_queue}
use music_server_app.ServerRoutine.{Answered, freed, cleared, send_ack_and_close}
use music_server_app.ResourceManager.Requests.{read_token, tell_deleted, serve_delete}
use music_server_app.ResourceManager.Answers.{Holds, Closed, send_ack_and_close-Closed}

-- A run whose result satisfies a property that fixes what comes next.
Returns-next {ℓ κ} :
    {A : Type ℓ} {B : Type κ} (P : A → Type 0) (m : Run A) (f : A → Run B) (b : Run B)
    → Returns P m
    → ((a : A) → P a → f a ≡ b)
    → (m >>= f) ≡ b
Returns-next P (ok a) f b p next = next a p
Returns-next P (fault e) f b p next = absurd p

-- Where a client's last message is a deletion that succeeds, the message's client is read after the
-- answer has freed the message.
pub serve_delete_last :
    (s : Server) (msg : ClntMsg) (content : List ℕ) {token : ℕ} {s1 : Server}
    → Holds msg.clnt_data content
    → header_size + msg.clnt_data.payload_size < 2 ^ 32
    → msg.clnt_data.is_last ≡ 1
    → read_token s.env.order msg.clnt_data.payload ≡ ok token
    → delete_from_queue s msg.clnt_data.clnt_id token ≡ ok (g_ok, s1)
    → serve_delete s msg ≡ fault use_after_free
unfolding serve_delete tell_deleted
serve_delete_last s msg content {token} {s1} holds fits last reads deleted =
    simp (reads, deleted, serve_delete)
      (Returns-next (Closed msg content holds fits res_ok_m s1) (send_ack_and_close s1 msg)
        (tell_deleted token) (fault use_after_free)
        (send_ack_and_close-Closed msg content holds fits s1) told)
  where
    told :
        (a : Answered × Server)
        → Closed msg content holds fits res_ok_m s1 a
        → tell_deleted token a ≡ fault use_after_free
    told (freed, s') (v, what) = refl
    told (cleared, s') (v, what) =
        let is_last : (msg.clnt_data.is_last == 1) ≡ true = ground arith in
        let bad = rw is_last at what in cc
