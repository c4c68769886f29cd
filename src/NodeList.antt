-- ===== src/NodeList.antt =====
-- A `LIST` of Common/inc/list.h seen as the sequence of its `data` pointers' contents, with the
-- counter `totalNode` beside it, and the functions of Common/src/list.c that the server calls on
-- its playlists and queues. `malloc` gives a node.
pub mod Laws
pub mod Heap
pub mod Cells
pub mod Unlinks
pub mod Refines
pub mod Removals
pub mod Memory
pub mod Dangling
use music_server_app.Base.{
  ℕ, ◌≡◌, Bool, true, false, Option, none, some, List, [], ◌∷◌, ◌++◌, Outcome, g_ok, g_err, g_fail,
  if◌then◌else◌, u32_add, u32_sub, length,
}

pub record NodeList {ℓ} (A : Type ℓ) : Type ℓ where
  pub nodes : List A
  pub total_node : ℕ

module _ {ℓ} {A : Type ℓ} where
  unfoldable pub init_list : NodeList A
  init_list = record { nodes = []; total_node = 0 }

  unfoldable pub add_last : NodeList A → A → NodeList A
  add_last root x = record {
    nodes = root.nodes ++ (x ∷ []);
    total_node = u32_add root.total_node 1;
  }

  -- The first node goes, in either branch with a decrement.
  first_of_nodes : List A → ℕ → Option A × NodeList A
  first_of_nodes [] total = (none, record { nodes = []; total_node = total })
  first_of_nodes (x ∷ xs) total = (some x, record { nodes = xs; total_node = u32_sub total 1 })

  unfoldable pub delete_first : NodeList A → Option A × NodeList A
  unfolding first_of_nodes
  delete_first root = first_of_nodes root.nodes root.total_node

  -- One `deleteFirst` for each node, until the list is empty.
  delete_all_nodes : List A → ℕ → NodeList A
  delete_all_nodes [] total = record { nodes = []; total_node = total }
  delete_all_nodes (x ∷ xs) total = delete_all_nodes xs (u32_sub total 1)

  unfoldable pub delete_all_from_list : NodeList A → NodeList A
  unfolding delete_all_nodes
  delete_all_from_list root = delete_all_nodes root.nodes root.total_node

  -- The nodes behind the first one, without the first that the test accepts, if there is such.
  unfoldable pub without_hit : (A → Bool) → List A → Option (List A)
  without_hit test [] = none
  without_hit test (x ∷ xs) =
      let rest = without_hit test xs in
      if test x then some xs else elim rest [ none ↦ none | some ys ↦ some (x ∷ ys) ]

  -- Only the removal of the first node, which goes through `deleteFirst`, counts `totalNode` down.
  one_having : (A → Bool) → List A → ℕ → Outcome × NodeList A
  unfolding without_hit
  one_having test [] total = (g_err, record { nodes = []; total_node = total })
  one_having test (x ∷ xs) total =
      if test x
      then (g_ok, record { nodes = xs; total_node = u32_sub total 1 })
      else (elim (without_hit test xs) [
        | none ↦ (g_fail, record { nodes = x ∷ xs; total_node = total })
        | some ys ↦ (g_ok, record { nodes = x ∷ ys; total_node = total })
      ])

  unfoldable pub delete_one_from_list_having : (A → Bool) → NodeList A → Outcome × NodeList A
  unfolding one_having
  delete_one_from_list_having test root = one_having test root.nodes root.total_node

  -- `totalNode` counts the nodes.
  abbrev pub IsCounted : NodeList A → Type 0
  IsCounted root = root.total_node ≡ length root.nodes
