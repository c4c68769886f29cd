-- ===== src/NodeList/Heap.antt =====
-- `LIST` and `LIST_NODE` of Common/inc/list.h in memory, and the functions of Common/src/list.c on
-- addresses. `malloc` gives an address that was never given before; the data is not `NULL`.
use music_server_app.Base.{
  ℕ, zero, suc, Bool, true, false, Option, none, some, ◌==◌, update, Outcome, g_ok, g_err, g_fail,
  u32_add, u32_sub,
}
use music_server_app.Base.Run.{Run, ok, fault, null_deref, use_after_free, out_of_fuel, ◌>>=◌}

module _ {ℓ} (A : Type ℓ) where
  -- `LIST_NODE`
  pub record Cell : Type ℓ where
    pub content : A
    pub after : Option ℕ

  -- `LIST` with the memory that its nodes are in. Addresses from `fresh` on were never given.
  pub record Root : Type ℓ where
    pub heap : ℕ → Option Cell
    pub first : Option ℕ
    pub last : Option ℕ
    pub total_node : ℕ
    pub fresh : ℕ

abbrev pub same_address : Option ℕ → Option ℕ → Bool
same_address none none = true
same_address none (some b) = false
same_address (some a) none = false
same_address (some a) (some b) = a == b

module _ {ℓ} {A : Type ℓ} where
  abbrev pub checked : Option (Cell A) → Run (Cell A)
  checked none = fault use_after_free
  checked (some c) = ok c

  -- `*p`
  abbrev pub load : Root A → Option ℕ → Run (Cell A)
  load r none = fault null_deref
  load r (some a) = checked (r.heap a)

  abbrev pub store : Root A → ℕ → Cell A → Root A
  store r a c = record r { heap = update r.heap a (some c) }

  abbrev pub free : Root A → ℕ → Root A
  free r a = record r { heap = update r.heap a none }

  -- `p->next = n`
  unfoldable pub set_next : Root A → Option ℕ → Option ℕ → Run (Root A)
  set_next r none n = fault null_deref
  set_next r (some a) n = checked (r.heap a) >>= λ c. ok (store r a (record c { after = n }))

  -- `malloc`, with the new node filled.
  abbrev pub allocate : Root A → A → Option ℕ → Root A
  allocate r x n = record (store r r.fresh (record { content = x; after = n })) {
    fresh = suc r.fresh;
  }

  -- In memory that has given no address from `fresh` on.
  unfoldable pub init_list : (ℕ → Option (Cell A)) → ℕ → Root A
  init_list heap fresh = record {
    heap = heap;
    first = none;
    last = none;
    total_node = 0;
    fresh = fresh;
  }

  unfoldable pub add_last : Root A → A → Run (Root A)
  add_last r x =
      let new = r.fresh in
      let r' = record (allocate r x none) { total_node = u32_add r.total_node 1 } in
      elim r.first [
        | none ↦ ok (record r' { first = some new; last = some new })
        | some f ↦ set_next r' r.last (some new) >>= λ r''. ok (record r'' { last = some new })
      ]

  unfoldable pub add_first : Root A → A → Root A
  add_first r x =
      let new = r.fresh in
      elim r.first [
        | none ↦ record (allocate r x none) {
          first = some new;
          last = some new;
          total_node = u32_add r.total_node 1;
        }
        | some f ↦ record (allocate r x (some f)) {
          first = some new;
          total_node = u32_add r.total_node 1;
        }
      ]

  unfoldable pub unlinked : Root A → ℕ → Cell A → Option A × Root A
  unlinked r a c = elim c.after [
    | none ↦ (
      some c.content,
      record (free r a) { first = none; last = none; total_node = u32_sub r.total_node 1 },
    )
    | some n ↦
        (some c.content, record (free r a) { first = some n; total_node = u32_sub r.total_node 1 })
  ]

  unfoldable pub delete_first : Root A → Run (Option A × Root A)
  unfolding unlinked
  delete_first r = elim r.first [
    | none ↦ ok (none, r)
    | some a ↦ checked (r.heap a) >>= λ c. ok (unlinked r a c)
  ]

  -- The node whose `next` is `last`, from `temp` on.
  unfoldable pub before_last : ℕ → Root A → Option ℕ → Run (Option ℕ)
  before_last zero r temp = fault out_of_fuel
  before_last (suc n) r temp = load r temp >>= λ c. elim (same_address c.after r.last) [
    | true ↦ ok temp
    | false ↦ before_last n r c.after
  ]

  -- The last node is freed, but the one before it still has its address, and `totalNode` still counts it.
  unfoldable pub delete_end : ℕ → Root A → ℕ → Run (Option A × Root A)
  delete_end fuel r f = elim (same_address (some f) r.last) [
    | true ↦ load r (some f) >>= λ c. ok (
      some c.content,
      record (free r f) { first = none; last = none; total_node = u32_sub r.total_node 1 },
    )
    | false ↦ before_last fuel r (some f) >>= λ temp. load r r.last >>= λ c.
        ok (some c.content, record (elim r.last [ none ↦ r | some l ↦ free r l ]) { last = temp })
  ]

  unfoldable pub delete_last : ℕ → Root A → Run (Option A × Root A)
  delete_last fuel r = elim r.first [ none ↦ ok (none, r) | some f ↦ delete_end fuel r f ]

  -- `getNextNode` with a current node that is one of the list's.
  unfoldable pub get_next_node : Root A → Option ℕ → Run (Option ℕ)
  get_next_node r current = elim r.first [
    | none ↦ ok none
    | some f ↦ elim current [ none ↦ ok (some f) | some a ↦ load r (some a) >>= λ c. ok c.after ]
  ]

  -- Every node is taken out, as `deleteAllFromList` does; the data that is freed is not the list's.
  unfoldable pub delete_all_from_list : ℕ → Root A → Run (Root A)
  delete_all_from_list zero r = elim r.first [ none ↦ ok r | some a ↦ fault out_of_fuel ]
  delete_all_from_list (suc n) r = elim r.first [
    | none ↦ ok r
    | some a ↦ delete_first r >>= λ (_, r'). delete_all_from_list n r'
  ]

  -- The node whose `next` node has data that the test accepts, from `temp` on, or `none`.
  unfoldable pub before_hit : ℕ → (A → Bool) → Root A → ℕ → Cell A → Run (Option (ℕ × ℕ))
  before_hit zero test r temp c = fault out_of_fuel
  before_hit (suc n) test r temp c = elim c.after [
    | none ↦ ok none
    | some m ↦ checked (r.heap m) >>= λ d. elim (test d.content) [
      | true ↦ ok (some (temp, m))
      | false ↦ before_hit n test r m d
    ]
  ]

  -- The node at `m` behind `temp` goes.
  unfoldable pub unlink_behind : Root A → ℕ → ℕ → Run (Root A)
  unlink_behind r temp m = elim (same_address (some m) r.last) [
    | true ↦ set_next (free r m) (some temp) none >>= λ r'. ok (record r' { last = some temp })
    | false ↦ checked (r.heap m) >>= λ d. set_next (free r m) (some temp) d.after
  ]

  unfoldable pub delete_one_from_list_having : ℕ → (A → Bool) → Root A → Run (Outcome × Root A)
  delete_one_from_list_having fuel test r = elim r.first [
    | none ↦ ok (g_err, r)
    | some a ↦ checked (r.heap a) >>= λ c. elim (test c.content) [
      | true ↦ delete_first r >>= λ (_, r'). ok (g_ok, r')
      | false ↦ before_hit fuel test r a c >>= λ found. elim found [
        | none ↦ ok (g_fail, r)
        | some (temp, m) ↦ unlink_behind r temp m >>= λ r'. ok (g_ok, r')
      ]
    ]
  ]
