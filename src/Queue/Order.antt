-- ===== src/Queue/Order.antt =====
-- The queue of Common/src/queue.c is first in, first out, its stack last in, first out.
use mathlib.Core.List.{append-nil, append_assoc}
use music_server_app.Base.{
  ℕ, ◌+◌, ◌^◌, ◌<◌, ◌≡◌, sym, ap, ◌∙◌, some, List, [], ◌∷◌, ◌++◌, arith, length, length-append,
  u32_add, u32_sub,
}
use music_server_app.NodeList.{NodeList, IsCounted, add_last, delete_first}
use music_server_app.NodeList.Laws.{add_last-IsCounted}
use music_server_app.Queue.{enqueue, dequeue, add_first, push, pop, Call, put, get, run_calls, puts}

module _ {ℓ} {A : Type ℓ} where
  grown :
      (q : NodeList A) (x : A) (n : ℕ)
      → length q.nodes + (n + 1) < 2 ^ 32
      → length (add_last q x).nodes + n < 2 ^ 32
  unfolding add_last
  grown q x n h = omega (arith, h, length-append q.nodes (x ∷ []))

  -- Whatever calls are made, the data taken out and then what is left in the queue are the data that
  -- were there and then the data put in, in this order.
  pub run_calls-puts :
      (calls : List (Call A)) (q : NodeList A)
      → (run_calls calls q).0 ++ (run_calls calls q).1.nodes ≡ q.nodes ++ puts calls
  unfolding run_calls enqueue dequeue add_last delete_first
  run_calls-puts [] q = sym (append-nil q.nodes)
  run_calls-puts (put x ∷ calls) q =
      run_calls-puts calls (add_last q x) ∙ append_assoc q.nodes (x ∷ []) (puts calls)
  run_calls-puts (get ∷ calls) q = go (λ q'. run_calls-puts calls q') q.nodes q.total_node
    where
      go :
          ((q' : NodeList A)
            → (run_calls calls q').0 ++ (run_calls calls q').1.nodes ≡ q'.nodes ++ puts calls)
          → (xs : List A) (total : ℕ)
          → let q : NodeList A = record { nodes = xs; total_node = total } in
            (run_calls (get ∷ calls) q).0 ++ (run_calls (get ∷ calls) q).1.nodes ≡ xs ++ puts calls
      go rest [] total = rest (record { nodes = []; total_node = total })
      go rest (x ∷ xs) total =
          ap (λ l. x ∷ l) (rest (record { nodes = xs; total_node = u32_sub total 1 }))

  -- Whatever is pushed is popped next, and the stack is then as it was, where its counter is a word.
  pub pop-push : (s : NodeList A) (x : A) → s.total_node < 2 ^ 32 → pop (push s x).1 ≡ (some x, s)
  unfolding pop push add_first delete_first
  pop-push s x h =
      let same : u32_sub (u32_add s.total_node 1) 1 ≡ s.total_node = omega arith in rw same

  -- `totalNode` counts the nodes after any calls, while fewer than 2 ^ 32 can be there.
  pub run_calls-IsCounted :
      (calls : List (Call A)) (q : NodeList A)
      → length q.nodes + length (puts calls) < 2 ^ 32
      → IsCounted q
      → IsCounted (run_calls calls q).1
  unfolding run_calls enqueue dequeue delete_first
  run_calls-IsCounted [] q h c = c
  run_calls-IsCounted (put x ∷ calls) q h c =
      run_calls-IsCounted calls (add_last q x) (grown q x (length (puts calls)) (omega (arith, h)))
        (add_last-IsCounted q x (omega (arith, h)) c)
  run_calls-IsCounted (get ∷ calls) q h c =
      go (λ q'. run_calls-IsCounted calls q') q.nodes q.total_node h c
    where
      go :
          ((q' : NodeList A)
            → length q'.nodes + length (puts calls) < 2 ^ 32
            → IsCounted q'
            → IsCounted (run_calls calls q').1)
          → (xs : List A) (total : ℕ) → length xs + length (puts calls) < 2 ^ 32
          → total ≡ length xs
          → IsCounted (run_calls (get ∷ calls) (record { nodes = xs; total_node = total })).1
      go rest [] total h c = rest (record { nodes = []; total_node = total }) h c
      go rest (x ∷ xs) total h c =
          rest (record { nodes = xs; total_node = u32_sub total 1 }) (omega (arith, h))
            (omega (arith, c, h))
