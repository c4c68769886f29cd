-- ===== src/NodeList/Refines.antt =====
-- The functions of Common/src/list.c on addresses do what NodeList says of sequences.
use mathlib.Core.Path.{subst}
use music_server_app.Base.{
  ℕ, suc, ◌≡◌, refl, sym, ap, ◌∙◌, arith, Option, none, some, List, [], ◌∷◌, ◌++◌, update,
  update-same, length, u32_add, u32_sub,
}
use music_server_app.Base.Run.{Returns}
use music_server_app.NodeList.{NodeList}
use music_server_app.NodeList as Seq
use music_server_app.NodeList.Heap.{
  Cell, Root, set_next, init_list, add_last, add_first, unlinked, delete_first,
}
use music_server_app.NodeList.Cells.{
  head, end, contents, Chain, Avoids, Distinct, Within, Within-mono, Within-Avoids, Chain-update,
  contents-append, end-append, Distinct-append, Within-append, Chain-append,
}

module _ {A : Type 0} where
  -- The list in memory is the sequence.
  pub record Represents (r : Root A) (q : NodeList A) : Type 0 where
    pub cells : List (ℕ × A)
    pub chain : Chain r.heap cells
    pub distinct : Distinct cells
    pub within : Within r.fresh cells
    pub first_is : r.first ≡ head cells
    pub last_is : r.last ≡ end cells
    pub nodes_are : contents cells ≡ q.nodes
    pub total_is : r.total_node ≡ q.total_node

  pub init_list-Represents :
      (heap : ℕ → Option (Cell A)) (fresh : ℕ) → Represents (init_list heap fresh) Seq.init_list
  unfolding init_list Seq.init_list
  init_list-Represents heap fresh = record {
    cells = [];
    chain = tt;
    distinct = tt;
    within = tt;
    first_is = refl;
    last_is = refl;
    nodes_are = refl;
    total_is = refl;
  }

  pub add_first-Represents :
      (r : Root A) (q : NodeList A) (x : A)
      → Represents r q
      → Represents
          (add_first r x)
          (record { nodes = x ∷ q.nodes; total_node = u32_add q.total_node 1 })
  unfolding add_first
  add_first-Represents r q x rep =
      go rep.cells rep.chain rep.distinct rep.within rep.first_is rep.last_is rep.nodes_are
    where
      go :
          (cells : List (ℕ × A))
          → Chain r.heap cells
          → Distinct cells
          → Within r.fresh cells
          → r.first ≡ head cells
          → r.last ≡ end cells
          → contents cells ≡ q.nodes
          → Represents
              (add_first r x)
              (record { nodes = x ∷ q.nodes; total_node = u32_add q.total_node 1 })
      go [] chain distinct within first last nodes =
          simp (first, add_first)
            (record {
              cells = (r.fresh, x) ∷ [];
              chain =
                  (update-same r.heap r.fresh (some (record { content = x; after = none })), tt);
              distinct = (tt, tt);
              within = (omega arith, tt);
              first_is = refl;
              last_is = refl;
              nodes_are = ap (λ l. x ∷ l) nodes;
              total_is = ap (λ n. u32_add n 1) rep.total_is;
            })
      go ((a, y) ∷ l) chain distinct within first last nodes =
          let apart : Avoids r.fresh ((a, y) ∷ l) = Within-Avoids r.fresh ((a, y) ∷ l) within in
          simp (first, add_first)
            (record {
              cells = (r.fresh, x) ∷ (a, y) ∷ l;
              chain = (
                update-same r.heap r.fresh (some (record { content = x; after = some a })),
                Chain-update r.heap r.fresh (some (record { content = x; after = some a }))
                    ((a, y) ∷ l) apart chain,
              );
              distinct = (apart, distinct);
              within = (
                omega arith,
                Within-mono r.fresh (suc r.fresh) ((a, y) ∷ l) (omega arith) within,
              );
              first_is = refl;
              last_is = last;
              nodes_are = ap (λ l. x ∷ l) nodes;
              total_is = ap (λ n. u32_add n 1) rep.total_is;
            })

  pub add_last-Represents :
      (r : Root A) (q : NodeList A) (x : A)
      → Represents r q
      → Returns (λ r'. Represents r' (Seq.add_last q x)) (add_last r x)
  unfolding add_last Seq.add_last set_next
  add_last-Represents r q x rep =
      go rep.cells rep.chain rep.distinct rep.within rep.first_is rep.last_is rep.nodes_are
    where
      counted : u32_add r.total_node 1 ≡ u32_add q.total_node 1
      counted = ap (λ n. u32_add n 1) rep.total_is

      go :
          (cells : List (ℕ × A))
          → Chain r.heap cells
          → Distinct cells
          → Within r.fresh cells
          → r.first ≡ head cells
          → r.last ≡ end cells
          → contents cells ≡ q.nodes
          → Returns
              (λ r'.
                Represents r'
                  (record { nodes = q.nodes ++ (x ∷ []); total_node = u32_add q.total_node 1 }))
              (add_last r x)
      go [] chain distinct within first last nodes =
          simp (first, add_last)
            (record {
              cells = (r.fresh, x) ∷ [];
              chain =
                  (update-same r.heap r.fresh (some (record { content = x; after = none })), tt);
              distinct = (tt, tt);
              within = (omega arith, tt);
              first_is = refl;
              last_is = refl;
              nodes_are = ap (λ l. l ++ (x ∷ [])) nodes;
              total_is = counted;
            })
      go ((a, y) ∷ l) chain distinct within first last nodes =
          let new : Option (Cell A) = some (record { content = x; after = none }) in
          let apart : Avoids r.fresh ((a, y) ∷ l) = Within-Avoids r.fresh ((a, y) ∷ l) within in
          let (e, z, is, last_at, chain') =
            Chain-append (update r.heap r.fresh new) (a, y) l r.fresh x apart distinct
              (Chain-update r.heap r.fresh new ((a, y) ∷ l) apart chain)
              (update-same r.heap r.fresh new) in
          let at_end : r.last ≡ some e = last ∙ is in
          simp (first, at_end, last_at, add_last, set_next)
            (record {
              cells = ((a, y) ∷ l) ++ ((r.fresh, x) ∷ []);
              chain = chain';
              distinct = Distinct-append ((a, y) ∷ l) r.fresh x apart distinct;
              within =
                  Within-append (suc r.fresh) ((a, y) ∷ l) r.fresh x (omega arith)
                    (Within-mono r.fresh (suc r.fresh) ((a, y) ∷ l) (omega arith) within);
              first_is = refl;
              last_is = sym (end-append ((a, y) ∷ l) r.fresh x);
              nodes_are = contents-append ((a, y) ∷ l) r.fresh x ∙ ap (λ l. l ++ (x ∷ [])) nodes;
              total_is = counted;
            })

  -- What `deleteFirst` gives, and what it leaves.
  abbrev pub Same : Option A × NodeList A → Option A × Root A → Type 0
  Same (x, q) (y, r) = (y ≡ x) × Represents r q

  pub delete_first-Represents :
      (r : Root A) (q : NodeList A)
      → Represents r q
      → Returns (Same (Seq.delete_first q)) (delete_first r)
  unfolding delete_first unlinked Seq.delete_first
  delete_first-Represents r q rep =
      subst
        (λ nodes.
          Returns (Same (Seq.delete_first (record { nodes = nodes; total_node = q.total_node })))
            (delete_first r))
        rep.nodes_are (go rep.cells rep.chain rep.distinct rep.within rep.first_is rep.last_is)
    where
      counted : u32_sub r.total_node 1 ≡ u32_sub q.total_node 1
      counted = ap (λ n. u32_sub n 1) rep.total_is

      go :
          (cells : List (ℕ × A))
          → Chain r.heap cells
          → Distinct cells
          → Within r.fresh cells
          → r.first ≡ head cells
          → r.last ≡ end cells
          → Returns
              (Same
                (Seq.delete_first (record { nodes = contents cells; total_node = q.total_node })))
              (delete_first r)
      go [] chain distinct within first last =
          simp (first, delete_first)
            (
              refl,
              record {
                cells = [];
                chain = chain;
                distinct = distinct;
                within = within;
                first_is = first;
                last_is = last;
                nodes_are = refl;
                total_is = rep.total_is;
              },
            )
      go ((a, y) ∷ []) (at, _) distinct within first last =
          simp (first, at, delete_first, unlinked)
            (
              refl,
              record {
                cells = [];
                chain = tt;
                distinct = tt;
                within = tt;
                first_is = refl;
                last_is = refl;
                nodes_are = refl;
                total_is = counted;
              },
            )
      go ((a, y) ∷ (b, z) ∷ l) (at, chain) (apart, distinct) (_, within) first last =
          simp (first, at, delete_first, unlinked)
            (
              refl,
              record {
                cells = (b, z) ∷ l;
                chain = Chain-update r.heap a none ((b, z) ∷ l) apart chain;
                distinct = distinct;
                within = within;
                first_is = refl;
                last_is = last;
                nodes_are = refl;
                total_is = counted;
              },
            )

  pub length-contents : (l : List (ℕ × A)) → length (contents l) ≡ length l
  length-contents [] = refl
  length-contents (p ∷ l) = ap suc (length-contents l)
