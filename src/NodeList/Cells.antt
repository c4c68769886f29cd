-- ===== src/NodeList/Cells.antt =====
-- The nodes of Common/src/list.c in memory, one behind the other.
use mathlib.Core.Option.{some-injective}
use music_server_app.Base.{
  ℕ, ◌<◌, ◌≤◌, ◌≡◌, ◌≢◌, refl, sym, ap, ◌∙◌, arith, Option, none, some, List, [], ◌∷◌, ◌++◌, update,
  update-same, update-other,
}
use music_server_app.NodeList.Heap.{Cell}

module _ {ℓ} {A : Type ℓ} where
  -- The address of the first of some nodes, and of the last.
  abbrev pub head : List (ℕ × A) → Option ℕ
  head [] = none
  head ((a, x) ∷ l) = some a

  abbrev pub end : List (ℕ × A) → Option ℕ
  end [] = none
  end ((a, x) ∷ []) = some a
  end (p ∷ q ∷ l) = end (q ∷ l)

  abbrev pub contents : List (ℕ × A) → List A
  contents [] = []
  contents ((a, x) ∷ l) = x ∷ contents l

  -- Each node is in memory and leads to the one behind it, the last one to `NULL`.
  abbrev pub Chain : (ℕ → Option (Cell A)) → List (ℕ × A) → Type ℓ
  Chain heap [] = Unit
  Chain heap ((a, x) ∷ l) = (heap a ≡ some (record { content = x; after = head l })) × Chain heap l

  -- The address is not one of theirs.
  abbrev pub Avoids : ℕ → List (ℕ × A) → Type 0
  Avoids b [] = Unit
  Avoids b ((a, x) ∷ l) = (a ≢ b) × Avoids b l

  abbrev pub Distinct : List (ℕ × A) → Type 0
  Distinct [] = Unit
  Distinct ((a, x) ∷ l) = Avoids a l × Distinct l

  -- They lie below an address.
  abbrev pub Within : ℕ → List (ℕ × A) → Type 0
  Within b [] = Unit
  Within b ((a, x) ∷ l) = (a < b) × Within b l

  pub Within-mono : (b c : ℕ) (l : List (ℕ × A)) → b ≤ c → Within b l → Within c l
  Within-mono b c [] h w = tt
  Within-mono b c ((a, x) ∷ l) h (near, w) = (omega (arith, near, h), Within-mono b c l h w)

  pub Within-Avoids : (b : ℕ) (l : List (ℕ × A)) → Within b l → Avoids b l
  Within-Avoids b [] w = tt
  Within-Avoids b ((a, x) ∷ l) (near, w) =
      (λ same. absurd (omega (arith, near, same)), Within-Avoids b l w)

  pub Chain-update :
      (heap : ℕ → Option (Cell A)) (b : ℕ) (v : Option (Cell A)) (l : List (ℕ × A))
      → Avoids b l
      → Chain heap l
      → Chain (update heap b v) l
  Chain-update heap b v [] apart c = tt
  Chain-update heap b v ((a, x) ∷ l) (other, apart) (at, c) =
      (update-other heap b v other ∙ at, Chain-update heap b v l apart c)

  -- The last of some nodes is not an address that they avoid.
  pub Avoids-end : (b e : ℕ) (l : List (ℕ × A)) → Avoids b l → end l ≡ some e → e ≢ b
  Avoids-end b e [] apart is same = cc
  Avoids-end b e ((a, x) ∷ []) (other, _) is same = other (some-injective a e is ∙ same)
  Avoids-end b e ((a, x) ∷ q ∷ l) (other, apart) is same = Avoids-end b e (q ∷ l) apart is same

  pub contents-append :
      (l : List (ℕ × A)) (a : ℕ) (x : A) → contents (l ++ ((a, x) ∷ [])) ≡ contents l ++ (x ∷ [])
  contents-append [] a x = refl
  contents-append ((b, y) ∷ l) a x = ap (λ t. y ∷ t) (contents-append l a x)

  pub end-append : (l : List (ℕ × A)) (a : ℕ) (x : A) → end (l ++ ((a, x) ∷ [])) ≡ some a
  end-append [] a x = refl
  end-append (p ∷ []) a x = refl
  end-append (p ∷ q ∷ l) a x = end-append (q ∷ l) a x

  pub Avoids-append :
      (b : ℕ) (l : List (ℕ × A)) (a : ℕ) (x : A)
      → a ≢ b
      → Avoids b l
      → Avoids b (l ++ ((a, x) ∷ []))
  Avoids-append b [] a x other apart = (other, tt)
  Avoids-append b (p ∷ l) a x other (first, apart) = (first, Avoids-append b l a x other apart)

  pub Distinct-append :
      (l : List (ℕ × A)) (a : ℕ) (x : A) → Avoids a l → Distinct l → Distinct (l ++ ((a, x) ∷ []))
  Distinct-append [] a x apart d = (tt, tt)
  Distinct-append ((b, y) ∷ l) a x (other, apart) (first, d) =
      (Avoids-append b l a x (λ same. other (sym same)) first, Distinct-append l a x apart d)

  pub Within-append :
      (b : ℕ) (l : List (ℕ × A)) (a : ℕ) (x : A)
      → a < b
      → Within b l
      → Within b (l ++ ((a, x) ∷ []))
  Within-append b [] a x near w = (near, tt)
  Within-append b (p ∷ l) a x near (first, w) = (first, Within-append b l a x near w)

  -- The new node is entered behind the last one, whose `next` is set.
  pub Chain-append :
      (heap : ℕ → Option (Cell A)) (p : ℕ × A) (l : List (ℕ × A)) (a : ℕ) (x : A)
      → Avoids a (p ∷ l)
      → Distinct (p ∷ l)
      → Chain heap (p ∷ l)
      → heap a ≡ some (record { content = x; after = none })
      → (e : ℕ) × (y : A) × (end (p ∷ l) ≡ some e)
        × (heap e ≡ some (record { content = y; after = none }))
        × Chain
            (update heap e (some (record { content = y; after = some a })))
            ((p ∷ l) ++ ((a, x) ∷ []))
  Chain-append heap (b, y) [] a x (other, _) d (at, _) new = (
    b,
    y,
    refl,
    at,
    (
      update-same heap b (some (record { content = y; after = some a })),
      (
        update-other heap b (some (record { content = y; after = some a }))
              (λ same. other (sym same))
            ∙ new,
        tt,
      ),
    ),
  )
  Chain-append heap (b, y) (q ∷ l) a x (other, apart) (first, d) (at, c) new =
      let (e, z, is, last_at, c') = Chain-append heap q l a x apart d c new in
      (
        e,
        z,
        is,
        last_at,
        (
          update-other heap e (some (record { content = z; after = some a }))
                (λ same. Avoids-end b e (q ∷ l) first is (sym same))
              ∙ at,
          c',
        ),
      )
