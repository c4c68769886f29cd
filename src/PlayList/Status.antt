-- ===== src/PlayList/Status.antt =====
-- `setPlayListStatus` of MusicServer/src/playlist.c: the request that goes to its next state.
use mathlib.Core.Path.{subst}
use music_server_app.Base.{
  ℕ, ◌≡◌, inl, inr, true, false, Option, none, some, List, [], ◌∷◌, Bool-cases, All,
}
use music_server_app.PlayList.{Request, PlState, waiting, same_state, promote}
use music_server_app.PlayList.Invariant.{Fits}

module _ (from to : PlState) where
  -- `rs'` is `rs` with the first request in state `from` moved on to state `to`.
  pub data Promotes : List Request → List Request → Type 0 where
    here :
        {r : Request} {rs : List Request}
        → same_state r.pl_status from ≡ true
        → Promotes (r ∷ rs) (record r { pl_status = to } ∷ rs)
    there :
        {r : Request} {rs rs' : List Request}
        → same_state r.pl_status from ≡ false
        → Promotes rs rs'
        → Promotes (r ∷ rs) (r ∷ rs')

  abbrev pub IsPromotion : List Request → Option (List Request) → Type 0
  IsPromotion rs none = All (λ r. same_state r.pl_status from ≡ false) rs
  IsPromotion rs (some rs') = Promotes rs rs'

  IsPromotion-behind :
      (r : Request) (rs : List Request)
      → same_state r.pl_status from ≡ false
      → (o : Option (List Request)) → IsPromotion rs o
      → IsPromotion (r ∷ rs) (elim o [ none ↦ none | some rs' ↦ some (r ∷ rs') ])
  IsPromotion-behind r rs miss none h = (miss, h)
  IsPromotion-behind r rs miss (some rs') h = there miss h

  -- The first request in state `from`, and it alone, goes to state `to`; `none` says that no
  -- request is in that state.
  pub promote-IsPromotion : (rs : List Request) → IsPromotion rs (promote from to rs)
  unfolding promote
  promote-IsPromotion [] = tt
  promote-IsPromotion (r ∷ rs) = elim (Bool-cases (same_state r.pl_status from)) [
    | inl hit ↦ rw hit (here hit)
    | inr miss ↦
        rw miss (IsPromotion-behind r rs miss (promote from to rs) (promote-IsPromotion rs))
  ]

  pub promote-Promotes :
      (rs : List Request) {rs' : List Request} → promote from to rs ≡ some rs' → Promotes rs rs'
  promote-Promotes rs e = subst (IsPromotion rs) e (promote-IsPromotion rs)

  Promotes-owned :
      (c : ℕ) {rs rs' : List Request}
      → Promotes rs rs'
      → All (λ r. r.id ≡ c) rs
      → All (λ r. r.id ≡ c) rs'
  Promotes-owned c (here hit) a = a
  Promotes-owned c (there miss p) a = (a.0, Promotes-owned c p a.1)

  -- Where all requests wait, only `PL_WAITING` itself can be promoted.
  not-Promotes_waiting :
      {rs rs' : List Request}
      → Promotes rs rs'
      → same_state waiting from ≡ false
      → ¬ All (λ r. r.pl_status ≡ waiting) rs
  not-Promotes_waiting (here hit) other a = let e = a.0 in cc (rw e at hit)
  not-Promotes_waiting (there miss p) other a = not-Promotes_waiting p other a.1

  pub promote-Fits :
      (c : ℕ) {rs rs' : List Request}
      → Promotes rs rs'
      → same_state waiting from ≡ false
      → Fits c rs
      → Fits c rs'
  promote-Fits c p other f =
      (Promotes-owned c p f.0, λ e. absurd (not-Promotes_waiting p other (f.1 e)))
