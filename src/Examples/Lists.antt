-- ===== src/Examples/Lists.antt =====
-- Lists in memory.
use music_server_app.Base.{ℕ, zero, suc, ◌≡◌, refl, none, some, List, [], ◌∷◌, arith, ltb}
use music_server_app.Base.Run.{Returns}
use music_server_app.NodeList as Seq
use music_server_app.NodeList.{NodeList}
use music_server_app.NodeList.Heap.{Root, init_list, delete_last}
use music_server_app.NodeList.Refines.{Represents, init_list-Represents}
use music_server_app.NodeList.Memory.{
  Call, to_end, to_front, take_first, delete_one, calls_in_memory, calls_on_nodes, Agrees,
  calls_in_memory-Agrees,
}
use music_server_app.NodeList.Dangling.{Dangles, delete_last-Dangles}

abbrev blank : Root ℕ
blank = init_list (λ a. none) 0

abbrev some_calls : List (Call ℕ)
some_calls = to_end 7 ∷ to_front 8 ∷ to_end 9 ∷ delete_one (λ x. ltb 8 x) ∷ take_first ∷ []

calls_in_memory-Agrees_example :
    Returns (Agrees (calls_on_nodes Seq.init_list some_calls)) (calls_in_memory 9 blank some_calls)
unfolding Seq.init_list
calls_in_memory-Agrees_example =
    calls_in_memory-Agrees some_calls 9 blank Seq.init_list (init_list-Represents (λ a. none) 0)
      (omega arith)

-- A list of two nodes.
abbrev pair : Root ℕ
pair = record {
  heap = λ a. elim a [
    | zero ↦ some (record { content = 7; after = some 1 })
    | suc b ↦ elim b [ zero ↦ some (record { content = 8; after = none }) | suc c ↦ none ]
  ];
  first = some 0;
  last = some 1;
  total_node = 2;
  fresh = 2;
}

abbrev pair_nodes : NodeList ℕ
pair_nodes = record { nodes = 7 ∷ 8 ∷ []; total_node = 2 }

pair-Represents : Represents pair pair_nodes
pair-Represents = record {
  cells = (0, 7) ∷ (1, 8) ∷ [];
  chain = (refl, (refl, tt));
  distinct = ((λ same. omega (arith, same), tt), (tt, tt));
  within = (omega arith, (omega arith, tt));
  first_is = refl;
  last_is = refl;
  nodes_are = refl;
  total_is = refl;
}

delete_last-Dangles_example :
    Returns (λ (x, r'). (x ≡ some 8) × (r'.total_node ≡ 2) × Dangles r') (delete_last 2 pair)
delete_last-Dangles_example =
    delete_last-Dangles 2 pair pair_nodes pair-Represents (omega arith) (omega arith)
