-- ===== src/PlayList/Promotion.antt =====
-- `setPlayListStatus` of MusicServer/src/playlist.c: what it does to the whole play list.
use mathlib.Core.Path.{subst}
use music_server_app.Base.{
  ℕ, ◌<◌, ◌≡◌, ◌≢◌, ◌⊎◌, inl, inr, refl, false, List, Option-cases, All, lt→ltb, max_client,
}
use music_server_app.Base.Run.{Returns}
use music_server_app.PlayList.{
  Request, PlayList, PlState, ready, downloading, playing, same_state, promote, promote_in,
  put_list, set_play_list_status,
}
use music_server_app.PlayList.Invariant.{IsSound, lock-IsSound}
use music_server_app.PlayList.Status.{Promotes, IsPromotion, promote-IsPromotion, promote-Promotes}
use music_server_app.PlayList.Deletion.{p_list-put_list, p_list-put_list_elsewhere}

-- Client `c`'s first request in state `from` is in state `to` now, or it has none; the other lists and
-- the client of the current download are as they were.
pub record Promotion (from to : PlState) (pl : PlayList) (c : ℕ) (pl' : PlayList) : Type 0 where
  pub in_list :
      Promotes from to (pl.p_list c).nodes (pl'.p_list c).nodes
      ⊎ (All (λ r. same_state r.pl_status from ≡ false) (pl.p_list c).nodes × (pl' ≡ pl))
  pub elsewhere : (a : ℕ) → a ≢ c → pl'.p_list a ≡ pl.p_list a
  pub same_current : pl'.current_downloading ≡ pl.current_downloading

module _ {pl : PlayList} (s : IsSound pl) (c : ℕ) (h : c < max_client) where
  promote_in-Promotion :
      (from to : PlState)
      → Returns (λ (_, pl'). Promotion from to pl c pl') (promote_in pl c from to)
  unfolding promote_in put_list
  promote_in-Promotion from to =
      rw (lock-IsSound s, lt→ltb _ _ h)
        (elim (Option-cases (promote from to (pl.p_list c).nodes)) [
          | inl missing ↦ rw missing (record {
            in_list = inr (
              subst (IsPromotion from to (pl.p_list c).nodes) missing
                  (promote-IsPromotion from to (pl.p_list c).nodes),
              refl,
            );
            elsewhere = λ a ne. refl;
            same_current = refl;
          })
          | inr (rs, found) ↦ rw found (changed rs (promote-Promotes from to _ found))
        ])
    where
      changed :
          (rs : List Request)
          → Promotes from to (pl.p_list c).nodes rs
          → Promotion from to pl c
              (record (put_list pl c (record (pl.p_list c) { nodes = rs })) { current_playing = c })
      changed rs moved = record {
        in_list = inl (rw (p_list-put_list pl c (record (pl.p_list c) { nodes = rs })) moved);
        elsewhere = p_list-put_list_elsewhere pl c (record (pl.p_list c) { nodes = rs });
        same_current = refl;
      }

  pub set_play_list_status-Promotion_ready :
      Returns (λ (_, pl'). Promotion downloading ready pl c pl') (set_play_list_status pl c ready)
  unfolding set_play_list_status
  set_play_list_status-Promotion_ready = promote_in-Promotion downloading ready

  pub set_play_list_status-Promotion_playing :
      Returns (λ (_, pl'). Promotion ready playing pl c pl') (set_play_list_status pl c playing)
  unfolding set_play_list_status
  set_play_list_status-Promotion_playing = promote_in-Promotion ready playing
