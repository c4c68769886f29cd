-- ===== src/NodeList/Removals.antt =====
-- `deleteOneFromListHaving` of Common/src/list.c on addresses does what NodeList says of sequences.
use mathlib.Core.Option.{some-injective}
use mathlib.Core.Path.{subst}
use music_server_app.Base.{
  ℕ, ◌≤◌, ◌≡◌, ◌≢◌, inl, inr, refl, sym, ap, ◌∙◌, arith, Bool, true, false, Option, none, some,
  List, [], ◌∷◌, update, update-other, Bool-cases, length, g_ok, g_fail, Outcome,
}
use music_server_app.Base.Run.{ok, Returns, Returns-bind, ◌>>=◌}
use music_server_app.NodeList.{NodeList}
use music_server_app.NodeList as Seq
use music_server_app.NodeList.Heap.{
  Cell, Root, store, free, set_next, same_address, delete_first, before_hit, unlink_behind,
  delete_one_from_list_having,
}
use music_server_app.NodeList.Cells.{head, end, contents, Chain, Distinct, Within}
use music_server_app.NodeList.Unlinks.{
  Hit, Finds, nothing, something, before_hit-Finds, Hit-Distinct, Hit-Within, Hit-Cut,
}
use music_server_app.NodeList.Refines.{Represents, Same, delete_first-Represents, length-contents}

same_address_sound : (m : ℕ) (o : Option ℕ) → same_address (some m) o ≡ true → o ≡ some m
same_address_sound m none e = cc
same_address_sound m (some b) e = ap some (ground (arith, e))

same_address_complete : (m : ℕ) (o : Option ℕ) → same_address (some m) o ≡ false → o ≢ some m
same_address_complete m none e is = cc
same_address_complete m (some b) e is = ground (arith, e, some-injective b m is)

module _ {A : Type 0} where
  set_next_lem :
      (r : Root A) (a : ℕ) (c : Cell A) (n : Option ℕ)
      → r.heap a ≡ some c
      → set_next r (some a) n ≡ ok (store r a (record c { after = n }))
  unfolding set_next
  set_next_lem r a c n at = rw at refl

  module _ (test : A → Bool) (r : Root A) (q : NodeList A) where
    unlink_behind-Represents :
        {p : ℕ × A} {l rest : List (ℕ × A)} {temp m : ℕ}
        → Hit test p l temp m rest
        → Distinct (p ∷ l)
        → Within r.fresh (p ∷ l)
        → Chain r.heap (p ∷ l)
        → r.first ≡ some p.0
        → r.last ≡ end (p ∷ l)
        → r.total_node ≡ q.total_node
        → Returns
            (λ r'.
              Represents r' (record { nodes = contents (p ∷ rest); total_node = q.total_node }))
            (unlink_behind r temp m)
    unfolding unlink_behind
    unlink_behind-Represents {p} {l} {rest} {temp} {m} h distinct within chain first last total =
        let cut = Hit-Cut test r.heap h distinct chain in
        let kept : (free r m).heap temp ≡ some (record { content = cut.t; after = some m }) =
          update-other r.heap m none cut.apart ∙ cut.temp_at in
        elim (Bool-cases (same_address (some m) r.last)) [
          | inl at_end ↦
              let (none_beyond, new_end) =
                cut.was_last (sym last ∙ same_address_sound m r.last at_end) in
              rw
                (
                  at_end,
                  set_next_lem (free r m) temp (record { content = cut.t; after = some m }) none
                      kept,
                  unlink_behind,
                  ◌>>=◌,
                )
                (record {
                  cells = p ∷ rest;
                  chain =
                      subst
                        (λ o.
                          Chain
                            (update (update r.heap m none) temp
                              (some (record { content = cut.t; after = o })))
                            (p ∷ rest))
                        none_beyond cut.chain;
                  distinct = Hit-Distinct test h distinct;
                  within = Hit-Within test r.fresh h within;
                  first_is = first;
                  last_is = sym new_end;
                  nodes_are = refl;
                  total_is = total;
                })
          | inr inside ↦
              let same_end =
                cut.not_last (λ is. same_address_complete m r.last inside (last ∙ is)) in
              rw
                (
                  inside,
                  cut.m_at,
                  set_next_lem (free r m) temp (record { content = cut.t; after = some m })
                      cut.beyond kept,
                  unlink_behind,
                  ◌>>=◌,
                )
                (record {
                  cells = p ∷ rest;
                  chain = cut.chain;
                  distinct = Hit-Distinct test h distinct;
                  within = Hit-Within test r.fresh h within;
                  first_is = first;
                  last_is = last ∙ sym same_end;
                  nodes_are = refl;
                  total_is = total;
                })
        ]

    abbrev pub SameOutcome : Outcome × NodeList A → Outcome × Root A → Type 0
    SameOutcome (res, q') (res', r') = (res' ≡ res) × Represents r' q'

    -- Behind a first node that the test refuses.
    behind_first : ℕ × A → List (ℕ × A) → Outcome × NodeList A
    behind_first (a, x) l = elim (Seq.without_hit test (contents l)) [
      | none ↦ (g_fail, record { nodes = x ∷ contents l; total_node = q.total_node })
      | some ys ↦ (g_ok, record { nodes = x ∷ ys; total_node = q.total_node })
    ]

    behind :
        (a : ℕ) (x : A) (l : List (ℕ × A))
        → Chain r.heap ((a, x) ∷ l)
        → Distinct ((a, x) ∷ l)
        → Within r.fresh ((a, x) ∷ l)
        → r.first ≡ some a
        → r.last ≡ end ((a, x) ∷ l)
        → Represents r (record { nodes = x ∷ contents l; total_node = q.total_node })
        → (o : Option (ℕ × ℕ)) → Finds test (a, x) l o
        → Returns (SameOutcome (behind_first (a, x) l)) (elim o [
          | none ↦ ok (g_fail, r)
          | some found ↦ unlink_behind r found.0 found.1 >>= λ r'. ok (g_ok, r')
        ])
    unfolding behind_first
    behind a x l chain distinct within first last whole _ (nothing is) =
        rw (is, behind_first) (refl, whole)
    behind a x l chain distinct within first last whole _ (something {temp} {m} rest h is) =
        rw (is, behind_first)
          (Returns-bind
            (λ r'. Represents r' (record { nodes = x ∷ contents rest; total_node = q.total_node }))
            _ (unlink_behind r temp m) _
            (unlink_behind-Represents h distinct within chain first last whole.total_is)
            λ r' rp. (refl, rp))

    pub delete_one-Represents :
        (fuel : ℕ)
        → Represents r q
        → length q.nodes ≤ fuel
        → Returns
            (SameOutcome (Seq.delete_one_from_list_having test q))
            (delete_one_from_list_having fuel test r)
    unfolding behind_first delete_one_from_list_having Seq.delete_one_from_list_having
        Seq.delete_first
    delete_one-Represents fuel rep enough =
        subst
          (λ nodes.
            Returns
              (SameOutcome (
                Seq.delete_one_from_list_having test
                  (record { nodes = nodes; total_node = q.total_node })))
              (delete_one_from_list_having fuel test r))
          rep.nodes_are
          (go rep.cells rep.chain rep.distinct rep.within rep.first_is rep.last_is
            (omega (arith, length-contents rep.cells, ap length rep.nodes_are, enough)))
      where
        go :
            (cells : List (ℕ × A))
            → Chain r.heap cells
            → Distinct cells
            → Within r.fresh cells
            → r.first ≡ head cells
            → r.last ≡ end cells
            → length cells ≤ fuel
            → Returns
                (SameOutcome (
                  Seq.delete_one_from_list_having test
                    (record { nodes = contents cells; total_node = q.total_node })))
                (delete_one_from_list_having fuel test r)
        go [] chain distinct within first last enough =
            simp (first, delete_one_from_list_having)
              (
                refl,
                record {
                  cells = [];
                  chain = chain;
                  distinct = distinct;
                  within = within;
                  first_is = first;
                  last_is = last;
                  nodes_are = refl;
                  total_is = rep.total_is;
                },
              )
        go ((a, x) ∷ l) (at, chain) distinct within first last enough =
            let whole : Represents r
                (record { nodes = x ∷ contents l; total_node = q.total_node }) =
              record {
                cells = (a, x) ∷ l;
                chain = (at, chain);
                distinct = distinct;
                within = within;
                first_is = first;
                last_is = last;
                nodes_are = refl;
                total_is = rep.total_is;
              } in
            elim (Bool-cases (test x)) [
              | inl passed ↦
                  simp (first, at, passed, delete_one_from_list_having)
                    (Returns-bind
                      (Same (
                        Seq.delete_first
                          (record { nodes = x ∷ contents l; total_node = q.total_node })))
                      _ (delete_first r) _
                      (delete_first-Represents r
                        (record { nodes = x ∷ contents l; total_node = q.total_node }) whole)
                      λ v s. (refl, s.1))
              | inr not_yet ↦
                  simp (first, at, not_yet, delete_one_from_list_having)
                    (Returns-bind (Finds test (a, x) l) _
                      (before_hit fuel test r a (record { content = x; after = head l })) _
                      (before_hit-Finds test fuel r a x l (omega (arith, enough)) chain)
                      λ o f. behind a x l (at, chain) distinct within first last whole o f)
            ]
