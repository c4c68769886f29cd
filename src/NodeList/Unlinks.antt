-- ===== src/NodeList/Unlinks.antt =====
-- `deleteOneFromListHaving` of Common/src/list.c in memory: the node in front of the one that goes.
use music_server_app.Base.{
  ℕ, zero, suc, ◌<◌, ◌≡◌, ◌≢◌, inl, inr, refl, sym, ◌∙◌, arith, Bool, true, false, Option, none,
  some, List, [], ◌∷◌, update, update-same, update-other, Bool-cases, length,
}
use music_server_app.Base.Run.{Returns, Returns-mono, ◌>>=◌}
use music_server_app.NodeList.{without_hit}
use music_server_app.NodeList.Heap.{Cell, Root, before_hit}
use music_server_app.NodeList.Cells.{
  head, end, contents, Chain, Avoids, Distinct, Within, Chain-update, Avoids-end,
}

module _ {A : Type 0} (test : A → Bool) where
  -- Behind the node `p` come the nodes of the list. The first that the test accepts is at `m`, the one
  -- before it at `temp`, and `rest` are the nodes without it.
  pub data Hit : ℕ × A → List (ℕ × A) → ℕ → ℕ → List (ℕ × A) → Type 0 where
    hit :
        {a m : ℕ} {x d : A} {back : List (ℕ × A)}
        → test d ≡ true
        → Hit (a, x) ((m, d) ∷ back) a m back
    later :
        {p : ℕ × A} {b temp m : ℕ} {z : A} {l rest : List (ℕ × A)}
        → test z ≡ false
        → Hit (b, z) l temp m rest
        → Hit p ((b, z) ∷ l) temp m ((b, z) ∷ rest)

  pub data Finds (p : ℕ × A) (l : List (ℕ × A)) : Option (ℕ × ℕ) → Type 0 where
    nothing : without_hit test (contents l) ≡ none → Finds p l none
    something :
        {temp m : ℕ} (rest : List (ℕ × A))
        → Hit p l temp m rest
        → without_hit test (contents l) ≡ some (contents rest)
        → Finds p l (some (temp, m))

  Finds-later :
      (p : ℕ × A) (b : ℕ) (z : A) (l : List (ℕ × A)) (o : Option (ℕ × ℕ))
      → test z ≡ false
      → Finds (b, z) l o
      → Finds p ((b, z) ∷ l) o
  unfolding without_hit
  Finds-later p b z l _ no_hit (nothing is) = nothing (rw (is, no_hit) refl)
  Finds-later p b z l _ no_hit (something rest h is) =
      something ((b, z) ∷ rest) (later no_hit h) (rw (is, no_hit) refl)

  pub before_hit-Finds :
      (fuel : ℕ) (r : Root A) (a : ℕ) (x : A) (l : List (ℕ × A))
      → length l < fuel
      → Chain r.heap l
      → Returns (Finds (a, x) l) (before_hit fuel test r a (record { content = x; after = head l }))
  unfolding before_hit without_hit
  before_hit-Finds zero r a x l enough chain = absurd (omega (arith, enough))
  before_hit-Finds (suc n) r a x [] enough chain = nothing refl
  before_hit-Finds (suc n) r a x ((m, d) ∷ l) enough (at, chain) = elim (Bool-cases (test d)) [
    | inl passed ↦ rw (at, passed, ◌>>=◌) (something l (hit passed) (rw passed refl))
    | inr not_yet ↦
        rw (at, not_yet, ◌>>=◌)
          (Returns-mono (Finds (m, d) l) _
            (before_hit n test r m (record { content = d; after = head l }))
            (before_hit-Finds n r m d l (omega (arith, enough)) chain)
            λ o f. Finds-later (a, x) m d l o not_yet f)
  ]

  Hit-Avoids :
      (c : ℕ) {p : ℕ × A} {l rest : List (ℕ × A)} {temp m : ℕ}
      → Hit p l temp m rest
      → Avoids c (p ∷ l)
      → (c ≢ temp) × (c ≢ m) × Avoids c (p ∷ rest)
  Hit-Avoids c (hit passed) (first, (second, apart)) =
      (λ same. first (sym same), λ same. second (sym same), (first, apart))
  Hit-Avoids c (later no_hit h) (first, apart) =
      let (t, n, left) = Hit-Avoids c h apart in (t, n, (first, left))

  pub Hit-Distinct :
      {p : ℕ × A} {l rest : List (ℕ × A)} {temp m : ℕ}
      → Hit p l temp m rest
      → Distinct (p ∷ l)
      → Distinct (p ∷ rest)
  Hit-Distinct (hit passed) (first, (second, d)) = (first.1, d)
  Hit-Distinct {p} (later no_hit h) (first, d) = ((Hit-Avoids p.0 h first).2, Hit-Distinct h d)

  pub Hit-Within :
      (c : ℕ) {p : ℕ × A} {l rest : List (ℕ × A)} {temp m : ℕ}
      → Hit p l temp m rest
      → Within c (p ∷ l)
      → Within c (p ∷ rest)
  Hit-Within c (hit passed) (first, (second, w)) = (first, w)
  Hit-Within c (later no_hit h) (first, w) = (first, Hit-Within c h w)

  -- With the node at `m` freed and the one at `temp` led past it, the others are a chain.
  pub record Cut (heap : ℕ → Option (Cell A)) (p : ℕ × A) (l : List (ℕ × A)) (temp m : ℕ)
      (rest : List (ℕ × A)) : Type 0 where
    pub t : A
    pub d : A
    pub beyond : Option ℕ
    pub temp_at : heap temp ≡ some (record { content = t; after = some m })
    pub m_at : heap m ≡ some (record { content = d; after = beyond })
    pub apart : temp ≢ m
    pub chain :
        Chain
          (update (update heap m none) temp (some (record { content = t; after = beyond })))
          (p ∷ rest)
    pub was_last : end (p ∷ l) ≡ some m → (beyond ≡ none) × (end (p ∷ rest) ≡ some temp)
    pub not_last : end (p ∷ l) ≢ some m → end (p ∷ rest) ≡ end (p ∷ l)

  hit_last :
      (a m : ℕ) (x d : A) (back : List (ℕ × A))
      → Avoids m back
      → end ((a, x) ∷ (m, d) ∷ back) ≡ some m
      → (head back ≡ none) × (end ((a, x) ∷ back) ≡ some a)
  hit_last a m x d [] apart is = (refl, refl)
  hit_last a m x d (q ∷ l) apart is = absurd (Avoids-end m m (q ∷ l) apart is refl)

  hit_inside :
      (a m : ℕ) (x d : A) (back : List (ℕ × A))
      → end ((a, x) ∷ (m, d) ∷ back) ≢ some m
      → end ((a, x) ∷ back) ≡ end ((a, x) ∷ (m, d) ∷ back)
  hit_inside a m x d [] inside = absurd (inside refl)
  hit_inside a m x d (q ∷ l) inside = refl

  pub Hit-Cut :
      (heap : ℕ → Option (Cell A)) {p : ℕ × A} {l rest : List (ℕ × A)} {temp m : ℕ}
      → Hit p l temp m rest
      → Distinct (p ∷ l)
      → Chain heap (p ∷ l)
      → Cut heap p l temp m rest
  Hit-Cut heap (hit {a} {m} {x} {d} {back} passed) ((other, first), (second, distinct))
        (at, (m_at, chain)) =
      record {
        t = x;
        d = d;
        beyond = head back;
        temp_at = at;
        m_at = m_at;
        apart = λ same. other (sym same);
        chain = (
          update-same (update heap m none) a (some (record { content = x; after = head back })),
          Chain-update (update heap m none) a (some (record { content = x; after = head back }))
              back first (Chain-update heap m none back second chain),
        );
        was_last = hit_last a m x d back second;
        not_last = hit_inside a m x d back;
      }
  Hit-Cut heap {p} (later {b = b} {temp} {m} {z} {l} {rest} no_hit h) (first, distinct)
        (at, chain) =
      let cut = Hit-Cut heap h distinct chain in
      let (off_temp, off_m, _) = Hit-Avoids p.0 h first in
      record {
        t = cut.t;
        d = cut.d;
        beyond = cut.beyond;
        temp_at = cut.temp_at;
        m_at = cut.m_at;
        apart = cut.apart;
        chain = (
          update-other (update heap m none) temp
                (some (record { content = cut.t; after = cut.beyond })) off_temp
              ∙ update-other heap m none off_m
              ∙ at,
          cut.chain,
        );
        was_last = cut.was_last;
        not_last = cut.not_last;
      }
