-- ===== src/NodeList/Laws.antt =====
-- What the functions of Common/src/list.c do to the sequence of nodes and to `totalNode`.
use music_server_app.Base.{
  ℕ, ◌+◌, ◌-◌, ◌^◌, ◌≤◌, ◌<◌, ◌≡◌, ◌≢◌, ◌⊎◌, inl, inr, refl, Bool, true, false, Option, none, some,
  List, [], ◌∷◌, arith, Outcome, g_ok, g_fail, if◌then◌else◌, u32_sub, length, length-append,
  Bool-cases, All,
}
use music_server_app.NodeList.{
  NodeList, IsCounted, add_last, delete_all_from_list, delete_all_nodes, without_hit, one_having,
  delete_one_from_list_having,
}

module _ {ℓ} {A : Type ℓ} where
  -- `ys` is `xs` without the first element that the test accepts.
  pub data Removes (test : A → Bool) : List A → List A → Type ℓ where
    here : {x : A} {xs : List A} → test x ≡ true → Removes test (x ∷ xs) xs
    there :
        {x : A} {xs ys : List A}
        → test x ≡ false
        → Removes test xs ys
        → Removes test (x ∷ xs) (x ∷ ys)

  -- The test accepts no element.
  pub data Rejects (test : A → Bool) : List A → Type ℓ where
    nil : Rejects test []
    cons : {x : A} {xs : List A} → test x ≡ false → Rejects test xs → Rejects test (x ∷ xs)

  abbrev pub accepts_first : (A → Bool) → List A → Bool
  accepts_first test [] = false
  accepts_first test (x ∷ xs) = test x

  abbrev pub Found : (A → Bool) → NodeList A → Outcome × NodeList A → Type ℓ
  Found test root (res, root') =
      (res ≡ g_ok)
      × Removes test root.nodes root'.nodes
      × (root'.total_node
          ≡ (if accepts_first test root.nodes then u32_sub root.total_node 1 else root.total_node))

  abbrev pub NotFound : (A → Bool) → NodeList A → Outcome × NodeList A → Type ℓ
  NotFound test root (res, root') = (res ≢ g_ok) × Rejects test root.nodes × (root' ≡ root)

  abbrev HitCases : (A → Bool) → List A → Option (List A) → Type ℓ
  HitCases test xs none = Rejects test xs
  HitCases test xs (some ys) = Removes test xs ys

  without_hit-HitCases : (test : A → Bool) (xs : List A) → HitCases test xs (without_hit test xs)
  unfolding without_hit
  without_hit-HitCases test [] = nil
  without_hit-HitCases test (x ∷ xs) = elim (Bool-cases (test x)) [
    | inl hit ↦ rw hit (here hit)
    | inr miss ↦ rw miss (go miss (without_hit test xs) (without_hit-HitCases test xs))
  ]
    where
      go :
          test x ≡ false
          → (o : Option (List A)) → HitCases test xs o
          → HitCases test (x ∷ xs) (elim o [ none ↦ none | some ys ↦ some (x ∷ ys) ])
      go miss none r = cons miss r
      go miss (some ys) r = there miss r

  -- `deleteOneFromListHaving` removes the first node that the test accepts, and says `G_OK`, or
  -- changes nothing where there is none. It counts `totalNode` down only for the first node.
  pub delete_one_from_list_having_lem :
      (test : A → Bool) (root : NodeList A)
      → Found test root (delete_one_from_list_having test root)
        ⊎ NotFound test root (delete_one_from_list_having test root)
  unfolding delete_one_from_list_having
  delete_one_from_list_having_lem test root = go root.nodes root.total_node
    where
      behind :
          (x : A) (xs : List A) (total : ℕ)
          → test x ≡ false
          → (o : Option (List A)) → HitCases test xs o
          → let r : Outcome × NodeList A = elim o [
            | none ↦ (g_fail, record { nodes = x ∷ xs; total_node = total })
            | some ys ↦ (g_ok, record { nodes = x ∷ ys; total_node = total })
          ] in
            let root : NodeList A = record { nodes = x ∷ xs; total_node = total } in
            ((r.0 ≡ g_ok) × Removes test (x ∷ xs) r.1.nodes × (r.1.total_node ≡ total))
            ⊎ NotFound test root r
      behind x xs total miss none r = inr ((λ e. cc), cons miss r, refl)
      behind x xs total miss (some ys) r = inl (refl, there miss r, refl)

      go :
          (xs : List A) (total : ℕ)
          → let root : NodeList A = record { nodes = xs; total_node = total } in
            Found test root (one_having test xs total)
            ⊎ NotFound test root (one_having test xs total)
      go [] total = inr ((λ e. cc), nil, refl)
      go (x ∷ xs) total = elim (Bool-cases (test x)) [
        | inl hit ↦ inl (rw hit (refl, here hit, refl))
        | inr miss ↦
            rw miss (behind x xs total miss (without_hit test xs) (without_hit-HitCases test xs))
      ]

  pub length-Removes :
      {test : A → Bool} {xs ys : List A} → Removes test xs ys → length xs ≡ length ys + 1
  length-Removes (here h) = omega arith
  length-Removes (there h r) = omega (arith, length-Removes r)

  pub add_last-IsCounted :
      (root : NodeList A) (x : A)
      → length root.nodes + 1 < 2 ^ 32
      → IsCounted root
      → IsCounted (add_last root x)
  unfolding add_last
  add_last-IsCounted root x h c = omega (arith, length-append root.nodes (x ∷ []))

  delete_all_nodes_lem :
      (xs : List A) (total : ℕ)
      → length xs ≤ total
      → total < 2 ^ 32
      → delete_all_nodes xs total ≡ record { nodes = []; total_node = total - length xs }
  unfolding delete_all_nodes
  delete_all_nodes_lem [] total h b = ground arith
  delete_all_nodes_lem (x ∷ xs) total h b =
      let one : u32_sub total 1 ≡ total - 1 = omega arith in
      let rest : total - 1 - length xs ≡ total - length (x ∷ xs) = omega arith in
      rw one (rw (delete_all_nodes_lem xs (total - 1) (omega arith) (omega arith)) (rw rest))

  -- `deleteAllFromList` ends with an empty list, and leaves in `totalNode` what it was ahead of the
  -- number of nodes.
  pub delete_all_from_list_lem :
      (root : NodeList A)
      → length root.nodes ≤ root.total_node
      → root.total_node < 2 ^ 32
      → delete_all_from_list root
        ≡ record { nodes = []; total_node = root.total_node - length root.nodes }
  unfolding delete_all_from_list
  delete_all_from_list_lem root h b = delete_all_nodes_lem root.nodes root.total_node h b

  -- A node that is removed from behind the first one stays counted, and `deleteAllFromList` does
  -- not mend that: on the emptied list `totalNode` is 1.
  pub delete_all-delete_one_drift :
      (test : A → Bool) (root : NodeList A)
      → IsCounted root
      → root.total_node < 2 ^ 32
      → accepts_first test root.nodes ≡ false
      → (delete_one_from_list_having test root).0 ≡ g_ok
      → delete_all_from_list (delete_one_from_list_having test root).1
        ≡ record { nodes = []; total_node = 1 }
  delete_all-delete_one_drift test root counted b miss found =
      elim (delete_one_from_list_having_lem test root) [
        | inl (_, removed, total) ↦
            let after = (delete_one_from_list_having test root).1 in
            let same : after.total_node ≡ root.total_node = rw (miss) at total in
            let less = length-Removes removed in
            let ahead : after.total_node - length after.nodes ≡ 1 = omega arith in
            rw (delete_all_from_list_lem after (omega arith) (omega arith)) (rw ahead)
        | inr (failed, _, _) ↦ absurd (failed found)
      ]

  nodes-delete_all_nodes : (xs : List A) (total : ℕ) → (delete_all_nodes xs total).nodes ≡ []
  unfolding delete_all_nodes
  nodes-delete_all_nodes [] total = refl
  nodes-delete_all_nodes (x ∷ xs) total = nodes-delete_all_nodes xs (u32_sub total 1)

  pub nodes-delete_all_from_list : (root : NodeList A) → (delete_all_from_list root).nodes ≡ []
  unfolding delete_all_from_list
  nodes-delete_all_from_list root = nodes-delete_all_nodes root.nodes root.total_node

  pub All-Removes :
      (P : A → Type 0) {test : A → Bool} {xs ys : List A} → Removes test xs ys → All P xs → All P ys
  All-Removes P (here h) a = a.1
  All-Removes P (there h r) a = (a.0, All-Removes P r a.1)
