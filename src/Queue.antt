-- ===== src/Queue.antt =====
-- Common/src/queue.c: the queue and the stack on a list of Common/src/list.c. Each operation takes and
-- releases the lock of its own; the data is never `NULL`.
pub mod Order
use music_server_app.Base.{ℕ, Option, none, some, List, [], ◌∷◌, Outcome, g_ok, u32_add}
use music_server_app.NodeList.{NodeList, init_list, add_last, delete_first}

module _ {ℓ} {A : Type ℓ} where
  unfoldable pub init_queue : NodeList A
  unfolding init_list
  init_queue = init_list

  unfoldable pub enqueue : NodeList A → A → Outcome × NodeList A
  enqueue q x = (g_ok, add_last q x)

  unfoldable pub dequeue : NodeList A → Option A × NodeList A
  dequeue q = delete_first q

  -- `addFirst`
  unfoldable pub add_first : NodeList A → A → NodeList A
  add_first root x = record { nodes = x ∷ root.nodes; total_node = u32_add root.total_node 1 }

  unfoldable pub push : NodeList A → A → Outcome × NodeList A
  unfolding add_first
  push s x = (g_ok, add_first s x)

  unfoldable pub pop : NodeList A → Option A × NodeList A
  pop s = delete_first s

-- A call on a queue.
pub data Call {ℓ} (A : Type ℓ) : Type ℓ where
  put : A → Call A
  get : Call A

module _ {ℓ} {A : Type ℓ} where
  -- The data that the calls take out, in order, and the queue that they leave.
  unfoldable pub run_calls : List (Call A) → NodeList A → List A × NodeList A
  run_calls [] q = ([], q)
  run_calls (put x ∷ calls) q = run_calls calls (enqueue q x).1
  run_calls (get ∷ calls) q =
      let (got, q') = dequeue q in
      let (rest, last) = run_calls calls q' in
      elim got [ none ↦ (rest, last) | some x ↦ (x ∷ rest, last) ]

  -- The data that the calls put in.
  abbrev pub puts : List (Call A) → List A
  puts [] = []
  puts (put x ∷ calls) = x ∷ puts calls
  puts (get ∷ calls) = puts calls
