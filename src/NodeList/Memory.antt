-- ===== src/NodeList/Memory.antt =====
-- Any calls of Common/src/list.c on a list in memory.
use mathlib.Core.Option.{some-injective}
use music_server_app.Base.{
  ℕ, zero, suc, ◌+◌, ◌≤◌, ◌≡◌, inl, inr, refl, ap, arith, Bool, Option, none, some, List, [], ◌∷◌,
  length, length-append, Bool-cases, Option-cases, Outcome, u32_add, u32_sub,
}
use music_server_app.Base.Run.{Run, ok, Returns, Returns-bind, ◌>>=◌}
use music_server_app.NodeList.{NodeList, without_hit}
use music_server_app.NodeList as Seq
use music_server_app.NodeList.Heap.{
  Root, add_last, add_first, delete_first, delete_one_from_list_having, delete_all_from_list,
}
use music_server_app.NodeList.Cells.{head, contents}
use music_server_app.NodeList.Removals.{SameOutcome, delete_one-Represents}
use music_server_app.NodeList.Refines.{
  Represents, Same, add_first-Represents, add_last-Represents, delete_first-Represents,
}

pub data Call (A : Type 0) : Type 0 where
  to_end to_front : A → Call A
  take_first empty : Call A
  delete_one : (A → Bool) → Call A

-- What a call answers.
pub data Reply (A : Type 0) : Type 0 where
  done : Reply A
  taken : Option A → Reply A
  answered : Outcome → Reply A

module _ {A : Type 0} where
  -- A call on addresses, and on the sequence.
  unfoldable pub call_in_memory : ℕ → Root A → Call A → Run (Reply A × Root A)
  call_in_memory fuel r (to_end x) = add_last r x >>= λ r'. ok (done, r')
  call_in_memory fuel r (to_front x) = ok (done, add_first r x)
  call_in_memory fuel r take_first = delete_first r >>= λ (x, r'). ok (taken x, r')
  call_in_memory fuel r empty = delete_all_from_list fuel r >>= λ r'. ok (done, r')
  call_in_memory fuel r (delete_one test) =
      delete_one_from_list_having fuel test r >>= λ (res, r'). ok (answered res, r')

  unfoldable pub call_on_nodes : NodeList A → Call A → Reply A × NodeList A
  call_on_nodes q (to_end x) = (done, Seq.add_last q x)
  call_on_nodes q (to_front x) =
      (done, record { nodes = x ∷ q.nodes; total_node = u32_add q.total_node 1 })
  call_on_nodes q take_first = let (x, q') = Seq.delete_first q in (taken x, q')
  call_on_nodes q empty = (done, Seq.delete_all_from_list q)
  call_on_nodes q (delete_one test) =
      let (res, q') = Seq.delete_one_from_list_having test q in (answered res, q')

  unfoldable pub calls_in_memory : ℕ → Root A → List (Call A) → Run (List (Reply A) × Root A)
  calls_in_memory fuel r [] = ok ([], r)
  calls_in_memory fuel r (c ∷ cs) = call_in_memory fuel r c >>= λ (reply, r').
      calls_in_memory fuel r' cs >>= λ (replies, r''). ok (reply ∷ replies, r'')

  unfoldable pub calls_on_nodes : NodeList A → List (Call A) → List (Reply A) × NodeList A
  calls_on_nodes q [] = ([], q)
  calls_on_nodes q (c ∷ cs) =
      let (reply, q') = call_on_nodes q c in
      let (replies, q'') = calls_on_nodes q' cs in (reply ∷ replies, q'')

  -- The same answers, and a list that is represented.
  abbrev pub Agrees : {X : Type 0} → X × NodeList A → X × Root A → Type 0
  Agrees (x, q) (y, r) = (y ≡ x) × Represents r q

  -- `first` is `NULL` exactly for the empty sequence.
  first_missing :
      (r : Root A) (total : ℕ)
      → Represents r (record { nodes = []; total_node = total })
      → r.first ≡ none
  first_missing r total rep = go rep.cells rep.first_is rep.nodes_are
    where
      go : (cells : List (ℕ × A)) → r.first ≡ head cells → contents cells ≡ [] → r.first ≡ none
      go [] first nodes = first
      go (p ∷ l) first nodes = cc

  first_there :
      (r : Root A) (x : A) (xs : List A) (total : ℕ)
      → Represents r (record { nodes = x ∷ xs; total_node = total })
      → (a : ℕ) × (r.first ≡ some a)
  first_there r x xs total rep = go rep.cells rep.first_is rep.nodes_are
    where
      go :
          (cells : List (ℕ × A))
          → r.first ≡ head cells
          → contents cells ≡ x ∷ xs
          → (a : ℕ) × (r.first ≡ some a)
      go [] first nodes = absurd (cc)
      go ((a, y) ∷ l) first nodes = (a, first)

  delete_all-Represents :
      (nodes : List A) (total fuel : ℕ) (r : Root A)
      → Represents r (record { nodes = nodes; total_node = total })
      → length nodes ≤ fuel
      → Returns
          (λ r'. Represents r' (Seq.delete_all_nodes nodes total))
          (delete_all_from_list fuel r)
  unfolding delete_all_from_list Seq.delete_all_nodes Seq.delete_first Seq.first_of_nodes
  delete_all-Represents [] total zero r rep enough =
      rw (first_missing r total rep, delete_all_from_list) rep
  delete_all-Represents [] total (suc n) r rep enough =
      rw (first_missing r total rep, delete_all_from_list) rep
  delete_all-Represents (x ∷ xs) total zero r rep enough = absurd (omega (arith, enough))
  delete_all-Represents (x ∷ xs) total (suc n) r rep enough =
      let q : NodeList A = record { nodes = x ∷ xs; total_node = total } in
      let (a, there) = first_there r x xs total rep in
      simp (there, delete_all_from_list)
        (Returns-bind (Same (Seq.delete_first q)) _ (delete_first r) _
          (delete_first-Represents r q rep)
          λ v s. delete_all-Represents xs (u32_sub total 1) n v.1 s.1 (omega (arith, enough)))

  length-without_hit :
      (test : A → Bool) (xs ys : List A) → without_hit test xs ≡ some ys → length ys ≤ length xs
  unfolding without_hit
  length-without_hit test [] ys e = cc
  length-without_hit test (x ∷ xs) ys e = elim (Bool-cases (test x)) [
    | inl passed ↦
        let same : xs ≡ ys = some-injective xs ys (rw passed at e) in omega (arith, ap length same)
    | inr not_yet ↦ elim (Option-cases (without_hit test xs)) [
      | inl missing ↦ absurd (let no_such : none ≡ some ys = rw (not_yet, missing) at e in cc)
      | inr (zs, is) ↦
          let same : x ∷ zs ≡ ys = some-injective (x ∷ zs) ys (rw (not_yet, is) at e) in
          omega (arith, ap length same, length-without_hit test xs zs is)
    ]
  ]

  first_of_nodes-length :
      (xs : List A) (total : ℕ) → length (Seq.first_of_nodes xs total).1.nodes ≤ length xs
  unfolding Seq.first_of_nodes
  first_of_nodes-length [] total = omega arith
  first_of_nodes-length (x ∷ xs) total = omega arith

  delete_all_nodes-length :
      (xs : List A) (total : ℕ) → length (Seq.delete_all_nodes xs total).nodes ≤ 0
  unfolding Seq.delete_all_nodes
  delete_all_nodes-length [] total = omega arith
  delete_all_nodes-length (x ∷ xs) total = delete_all_nodes-length xs (u32_sub total 1)

  one_having-length :
      (test : A → Bool) (xs : List A) (total : ℕ)
      → length (Seq.one_having test xs total).1.nodes ≤ length xs
  unfolding Seq.one_having
  one_having-length test [] total = omega arith
  one_having-length test (x ∷ xs) total = elim (Bool-cases (test x)) [
    | inl passed ↦ rw passed (omega arith)
    | inr not_yet ↦ elim (Option-cases (without_hit test xs)) [
      | inl missing ↦ rw (not_yet, missing) (omega arith)
      | inr (ys, is) ↦ rw (not_yet, is) (omega (arith, length-without_hit test xs ys is))
    ]
  ]

  call_on_nodes-length :
      (q : NodeList A) (c : Call A) → length (call_on_nodes q c).1.nodes ≤ suc (length q.nodes)
  unfolding call_on_nodes Seq.add_last Seq.delete_first Seq.delete_all_from_list
      Seq.delete_one_from_list_having
  call_on_nodes-length q (to_end x) = omega (arith, length-append q.nodes (x ∷ []))
  call_on_nodes-length q (to_front x) = omega arith
  call_on_nodes-length q take_first = omega (arith, first_of_nodes-length q.nodes q.total_node)
  call_on_nodes-length q empty = omega (arith, delete_all_nodes-length q.nodes q.total_node)
  call_on_nodes-length q (delete_one test) =
      omega (arith, one_having-length test q.nodes q.total_node)

  call_in_memory-Agrees :
      (fuel : ℕ) (r : Root A) (q : NodeList A) (c : Call A)
      → Represents r q
      → length q.nodes ≤ fuel
      → Returns (Agrees (call_on_nodes q c)) (call_in_memory fuel r c)
  unfolding call_in_memory call_on_nodes Seq.delete_all_from_list
  call_in_memory-Agrees fuel r q (to_end x) rep enough =
      Returns-bind (λ r'. Represents r' (Seq.add_last q x)) _ (add_last r x) _
        (add_last-Represents r q x rep) λ r' rep'. (refl, rep')
  call_in_memory-Agrees fuel r q (to_front x) rep enough = (refl, add_first-Represents r q x rep)
  call_in_memory-Agrees fuel r q take_first rep enough =
      Returns-bind (Same (Seq.delete_first q)) _ (delete_first r) _
        (delete_first-Represents r q rep) λ v s. (ap taken s.0, s.1)
  call_in_memory-Agrees fuel r q empty rep enough =
      Returns-bind (λ r'. Represents r' (Seq.delete_all_from_list q)) _
        (delete_all_from_list fuel r) _
        (delete_all-Represents q.nodes q.total_node fuel r rep enough) λ r' rep'. (refl, rep')
  call_in_memory-Agrees fuel r q (delete_one test) rep enough =
      Returns-bind (SameOutcome test r q (Seq.delete_one_from_list_having test q)) _
        (delete_one_from_list_having fuel test r) _ (delete_one-Represents test r q fuel rep enough)
        λ v s. (ap answered s.0, s.1)

  -- Calls of addLast, addFirst, deleteFirst, deleteAllFromList and deleteOneFromListHaving on a list in
  -- memory that represents a sequence end, with the answers that the functions on sequences give, and
  -- the list then represents the sequence that those leave. The loops take as much fuel as nodes can be
  -- there.
  pub calls_in_memory-Agrees :
      (cs : List (Call A)) (fuel : ℕ) (r : Root A) (q : NodeList A)
      → Represents r q
      → length q.nodes + length cs ≤ fuel
      → Returns (Agrees (calls_on_nodes q cs)) (calls_in_memory fuel r cs)
  unfolding calls_in_memory calls_on_nodes
  calls_in_memory-Agrees [] fuel r q rep enough = (refl, rep)
  calls_in_memory-Agrees (c ∷ cs) fuel r q rep enough =
      Returns-bind (Agrees (call_on_nodes q c)) _ (call_in_memory fuel r c) _
        (call_in_memory-Agrees fuel r q c rep (omega (arith, enough)))
        λ v a.
          Returns-bind (Agrees (calls_on_nodes (call_on_nodes q c).1 cs)) _
            (calls_in_memory fuel v.1 cs) _
            (calls_in_memory-Agrees cs fuel v.1 (call_on_nodes q c).1 a.1
              (omega (arith, enough, call_on_nodes-length q c)))
            λ w b. (rw (a.0, b.0) refl, b.1)
