-- ===== src/NodeList/Dangling.antt =====
-- What `deleteLast` of Common/src/list.c leaves in memory.
use mathlib.Core.Path.{subst}
use music_server_app.Base.{
  ℕ, zero, suc, ◌<◌, ◌≤◌, ◌≡◌, ◌≢◌, refl, sym, ◌∙◌, arith, true, false, Option, none, some, List,
  [], ◌∷◌, update-same, update-other, length, ==_refl,
}
use music_server_app.Base.Run.{ok, Returns, Returns-bind, Returns-mono, ◌>>=◌}
use music_server_app.NodeList.{NodeList}
use music_server_app.NodeList.Heap.{
  Root, load, free, same_address, before_last, delete_end, delete_last,
}
use music_server_app.NodeList.Cells.{head, end, contents, Chain, Avoids, Distinct, Avoids-end}
use music_server_app.NodeList.Refines.{Represents, length-contents}

module _ {A : Type 0} where
  abbrev pub last_of : List A → Option A
  last_of [] = none
  last_of (x ∷ []) = some x
  last_of (x ∷ y ∷ l) = last_of (y ∷ l)

  -- The two nodes at the end.
  record Ends (r : Root A) (xs : List A) (o : Option ℕ) : Type 0 where
    temp : ℕ
    m : ℕ
    t : A
    d : A
    is_temp : o ≡ some temp
    is_last : r.last ≡ some m
    apart : temp ≢ m
    temp_at : r.heap temp ≡ some (record { content = t; after = some m })
    m_at : r.heap m ≡ some (record { content = d; after = none })
    last_content : last_of xs ≡ some d

  end_differs :
      (b : ℕ) (o : Option ℕ) (l : List (ℕ × A))
      → Avoids b l
      → o ≡ end l
      → same_address (some b) o ≡ false
  end_differs b none l apart is = refl
  end_differs b (some e) l apart is = let other = Avoids-end b e l apart (sym is) in ground arith

  before_last-Ends :
      (fuel : ℕ) (r : Root A) (a : ℕ) (x : A) (b : ℕ) (y : A) (l : List (ℕ × A))
      → Chain r.heap ((a, x) ∷ (b, y) ∷ l)
      → Distinct ((a, x) ∷ (b, y) ∷ l)
      → r.last ≡ end ((b, y) ∷ l)
      → length l < fuel
      → Returns (Ends r (x ∷ y ∷ contents l)) (before_last fuel r (some a))
  unfolding before_last
  before_last-Ends zero r a x b y l chain distinct last enough = absurd (omega (arith, enough))
  before_last-Ends (suc n) r a x b y [] (at, (b_at, _)) ((other, _), _) last enough =
      let same : same_address (some b) r.last ≡ true = rw last (==_refl b) in
      rw (at, same, before_last, ◌>>=◌)
        (record {
          temp = a;
          m = b;
          t = x;
          d = y;
          is_temp = refl;
          is_last = last;
          apart = λ is. other (sym is);
          temp_at = at;
          m_at = b_at;
          last_content = refl;
        })
  before_last-Ends (suc n) r a x b y ((c, z) ∷ l) (at, chain) (_, distinct) last enough =
      let different : same_address (some b) r.last ≡ false =
        end_differs b r.last ((c, z) ∷ l) distinct.0 last in
      rw (at, different, before_last, ◌>>=◌)
        (Returns-mono (Ends r (y ∷ z ∷ contents l)) _ (before_last n r (some b))
          (before_last-Ends n r b y c z l chain distinct last (omega (arith, enough)))
          λ o e. record {
            temp = e.temp;
            m = e.m;
            t = e.t;
            d = e.d;
            is_temp = e.is_temp;
            is_last = e.is_last;
            apart = e.apart;
            temp_at = e.temp_at;
            m_at = e.m_at;
            last_content = e.last_content;
          })

  -- `last` leads to a node whose `next` is the address of a node that was freed.
  pub record Dangles (r : Root A) : Type 0 where
    pub temp : ℕ
    pub m : ℕ
    pub t : A
    pub last_is : r.last ≡ some temp
    pub next_is : r.heap temp ≡ some (record { content = t; after = some m })
    pub freed : r.heap m ≡ none

  -- On a list of two nodes or more `deleteLast` ends and answers the data of the last one. But it counts
  -- nothing down, and `last` then leads to a node whose `next` is still the address of the freed one.
  pub delete_last-Dangles :
      (fuel : ℕ) (r : Root A) (q : NodeList A)
      → Represents r q
      → 2 ≤ length q.nodes
      → length q.nodes ≤ fuel
      → Returns
          (λ (x, r'). (x ≡ last_of q.nodes) × (r'.total_node ≡ q.total_node) × Dangles r')
          (delete_last fuel r)
  unfolding delete_last delete_end
  delete_last-Dangles fuel r q rep two enough =
      subst
        (λ nodes.
          2 ≤ length nodes
          → length nodes ≤ fuel
          → Returns (λ (x, r'). (x ≡ last_of nodes) × (r'.total_node ≡ q.total_node) × Dangles r')
              (delete_last fuel r))
        rep.nodes_are (go rep.cells rep.chain rep.distinct rep.first_is rep.last_is) two enough
    where
      left :
          {xs : List A} (o : Option ℕ)
          → Ends r xs o
          → Returns
              (λ (x, r'). (x ≡ last_of xs) × (r'.total_node ≡ q.total_node) × Dangles r')
              (load r r.last >>= λ c. ok (
                some c.content,
                record (elim r.last [ none ↦ r | some l ↦ free r l ]) { last = o },
              ))
      left o e =
          simp (e.is_last, e.m_at)
            (
              sym e.last_content,
              rep.total_is,
              record {
                temp = e.temp;
                m = e.m;
                t = e.t;
                last_is = e.is_temp;
                next_is = update-other r.heap e.m none e.apart ∙ e.temp_at;
                freed = update-same r.heap e.m none;
              },
            )

      go :
          (cells : List (ℕ × A))
          → Chain r.heap cells
          → Distinct cells
          → r.first ≡ head cells
          → r.last ≡ end cells
          → 2 ≤ length (contents cells)
          → length (contents cells) ≤ fuel
          → Returns
              (λ (x, r').
                (x ≡ last_of (contents cells)) × (r'.total_node ≡ q.total_node) × Dangles r')
              (delete_last fuel r)
      go [] chain distinct first last two enough = absurd (omega (arith, two))
      go (p ∷ []) chain distinct first last two enough = absurd (omega (arith, two))
      go ((a, x) ∷ (b, y) ∷ l) chain distinct first last two enough =
          let different : same_address (some a) r.last ≡ false =
            end_differs a r.last ((b, y) ∷ l) distinct.0 last in
          simp (first, delete_last)
            (simp (different, delete_end)
              (Returns-bind (Ends r (x ∷ y ∷ contents l)) _ (before_last fuel r (some a)) _
                (before_last-Ends fuel r a x b y l chain distinct last
                  (omega (arith, enough, length-contents l)))
                λ o e. left o e))
