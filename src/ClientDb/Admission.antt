-- ===== src/ClientDb/Admission.antt =====
-- `registerClientFunc` of MusicServer/src/clientdb.c: who gets a place.
use music_server_app.Base.{
  ℕ, ◌<◌, ◌≡◌, ◌≢◌, ◌⊎◌, inl, inr, refl, sym, ap, ◌∙◌, true, false, Option, none, some, List, arith,
  update-same, update-other, ◌==◌, Bool-cases, lt→ltb, max_client,
}
use music_server_app.Base.Run.{Returns, Returns-bind}
use music_server_app.ClientDb.{Server, registered, is_unregistered, find_client}
use music_server_app.ClientDb.Register.{
  drop_old_session, enter_client, take_free_place, register_client,
}
use music_server_app.ClientDb.Search.{found, missing, find_client-Search}
use music_server_app.ClientDb.Registry.{
  IsRegistry, Dropped, none_had, one_left, drop_old_session-Dropped,
}

-- Place `i` has been given to the address. It was free or had the old session of the address, and
-- no other client's place has changed.
pub record Admitted (s : Server) (ip : ℕ) (s' : Server) (i : ℕ) : Type 0 where
  pub in_range : i < max_client
  pub enters : s'.client_state i ≡ registered
  pub address : s'.client_ip i ≡ ip
  pub free : (is_unregistered (s.client_state i) ≡ true) ⊎ (s.client_ip i ≡ ip)
  pub others :
      (j : ℕ)
      → j < max_client
      → j ≢ i
      → s.client_ip j ≢ ip
      → (s'.client_state j ≡ s.client_state j) × (s'.client_ip j ≡ s.client_ip j)

-- A new client is refused only where every place is another address's, and then nothing changes.
pub record Refused (s : Server) (ip : ℕ) (s' : Server) : Type 0 where
  pub taken :
      (j : ℕ) → j < max_client → (is_unregistered (s.client_state j) ≡ false) × (s.client_ip j ≢ ip)
  pub unchanged : s' ≡ s

abbrev pub Registration : Server → ℕ → Option ℕ × Server → Type 0
Registration s ip (none, s') = Refused s ip s'
Registration s ip (some i, s') = Admitted s ip s' i

same_or_other : (j i : ℕ) → (j ≡ i) ⊎ (j ≢ i)
same_or_other j i = ground arith

-- The server with a place filled that was free before.
record Entered (s1 : Server) (ip i : ℕ) (s' : Server) : Type 0 where
  state_at : s'.client_state i ≡ registered
  ip_at : s'.client_ip i ≡ ip
  rest :
      (j : ℕ) → j ≢ i → (s'.client_state j ≡ s1.client_state j) × (s'.client_ip j ≡ s1.client_ip j)
  same_list : s'.pl ≡ s1.pl

enter_client-Entered :
    (s1 : Server) (i : ℕ) (name : List ℕ) (ip : ℕ) → Entered s1 ip i (enter_client s1 i name ip)
unfolding enter_client
enter_client-Entered s1 i name ip = record {
  state_at = update-same s1.client_state i registered;
  ip_at = update-same s1.client_ip i ip;
  rest = λ j ne. (update-other s1.client_state i registered ne, update-other s1.client_ip i ip ne);
  same_list = refl;
}

Dropped-fresh :
    {s s1 : Server} (ip : ℕ)
    → IsRegistry s
    → ip ≢ 0
    → Dropped s ip s1
    → (i : ℕ) → i < max_client
    → s1.client_ip i ≢ ip
Dropped-fresh {s} {s1} ip r nonzero (none_had clear same) i near e = clear i near (rw same at e)
Dropped-fresh {s} {s1} ip r nonzero (one_left old near_old at_old left) i near e =
    elim (Bool-cases (i == old)) [
      | inl hit ↦
          let same : i ≡ old = ground arith in
          nonzero (sym e ∙ ap s1.client_ip same ∙ left.no_address)
      | inr miss ↦
          let ne : i ≢ old = ground arith in
          let at_i = sym (left.others i ne).1 ∙ e in
          ne
            (r.distinct i old near near_old (at_i ∙ sym at_old) (λ zero. nonzero (sym at_i ∙ zero)))
    ]

Entered-IsRegistry :
    {s1 s' : Server} (ip i : ℕ)
    → IsRegistry s1
    → ((j : ℕ) → j < max_client → s1.client_ip j ≢ ip)
    → Entered s1 ip i s'
    → IsRegistry s'
Entered-IsRegistry {s1} {s'} ip i r fresh en = record {
  sound = rw en.same_list r.sound;
  vacant = λ j near h. elim (same_or_other j i) [
    | inl same ↦ let taken = rw (same, en.state_at) at h in cc
    | inr ne ↦ (en.rest j ne).1 ∙ r.vacant j near (rw ((en.rest j ne).0) at h)
  ];
  distinct = λ a b near_a near_b e nonzero. elim (same_or_other a i) [
    | inl a_new ↦ elim (same_or_other b i) [
      | inl b_new ↦ a_new ∙ sym b_new
      | inr b_old ↦
          absurd
            (fresh b near_b (sym (en.rest b b_old).1 ∙ sym e ∙ ap s'.client_ip a_new ∙ en.ip_at))
    ]
    | inr a_old ↦ elim (same_or_other b i) [
      | inl b_new ↦
          absurd (fresh a near_a (sym (en.rest a a_old).1 ∙ e ∙ ap s'.client_ip b_new ∙ en.ip_at))
      | inr b_old ↦
          let at_a = (en.rest a a_old).1 in
          r.distinct a b near_a near_b (sym at_a ∙ e ∙ (en.rest b b_old).1)
            (λ zero. nonzero (at_a ∙ zero))
    ]
  ];
}

module _ {s s1 : Server} (r : IsRegistry s) (ip : ℕ) (nonzero : ip ≢ 0) (d : Dropped s ip s1) where
  Entered-Admitted :
      (i : ℕ) {s' : Server}
      → i < max_client
      → is_unregistered (s1.client_state i) ≡ true
      → Entered s1 ip i s'
      → Admitted s ip s' i
  Entered-Admitted i near open_place en = record {
    in_range = near;
    enters = en.state_at;
    address = en.ip_at;
    free = was_free d;
    others = λ j near_j ne other.
        let before = unmoved d j near_j other in
        ((en.rest j ne).0 ∙ before.0, (en.rest j ne).1 ∙ before.1);
  }
    where
      was_free :
          Dropped s ip s1 → (is_unregistered (s.client_state i) ≡ true) ⊎ (s.client_ip i ≡ ip)
      was_free (none_had clear same) = inl (rw same at open_place)
      was_free (one_left old near_old at_old left) = elim (same_or_other i old) [
        | inl same ↦ inr (ap s.client_ip same ∙ at_old)
        | inr ne ↦ inl (rw ((left.others i ne).0) at open_place)
      ]

      unmoved :
          Dropped s ip s1
          → (j : ℕ) → j < max_client
          → s.client_ip j ≢ ip
          → (s1.client_state j ≡ s.client_state j) × (s1.client_ip j ≡ s.client_ip j)
      unmoved (none_had clear same) j near_j other = rw same (refl, refl)
      unmoved (one_left old near_old at_old left) j near_j other =
          left.others j (λ same. other (ap s.client_ip same ∙ at_old))

  full-Refused :
      ((i : ℕ) → i < max_client → is_unregistered (s1.client_state i) ≡ false)
      → Dropped s ip s1
      → Refused s ip s1
  full-Refused full (none_had clear same) = record {
    taken = λ j near. (rw same at (full j near), clear j near);
    unchanged = same;
  }
  full-Refused full (one_left old near at_old left) =
      let taken = rw left.gone at (full old near) in cc

  take_free_place-Registration :
      (name : List ℕ)
      → IsRegistry s1
      → IsRegistry (take_free_place s1 name ip).1 × Registration s ip (take_free_place s1 name ip)
  unfolding take_free_place
  take_free_place-Registration name r1 =
      elim (find_client-Search (λ i. is_unregistered (s1.client_state i))) [
        | found _ near open_place ↦
            let i = find_client (λ i. is_unregistered (s1.client_state i)) in
            let en = enter_client-Entered s1 i name ip in
            rw (lt→ltb _ _ near) (
              Entered-IsRegistry ip i r1 (Dropped-fresh ip r nonzero d) en,
              Entered-Admitted i near open_place en,
            )
        | missing e none_passes ↦
            rw e (r1, full-Refused (λ i near. none_passes i (omega arith) near) d)
      ]

-- `registerClientFunc` ends, for an address other than 0. It gives the client a place that was free
-- or had the address's old session, and leaves the places of the others; or every place is another
-- address's, and nothing changes. Addresses stay distinct.
pub register_client-Registration :
    {s : Server}
    → IsRegistry s
    → (name : List ℕ) (ip : ℕ) → ip ≢ 0
    → Returns (λ r. IsRegistry r.1 × Registration s ip r) (register_client s name ip)
unfolding register_client
register_client-Registration {s} r name ip nonzero =
    Returns-bind (λ s1. IsRegistry s1 × Dropped s ip s1) (λ r. IsRegistry r.1 × Registration s ip r)
      (drop_old_session s ip) _ (drop_old_session-Dropped r ip nonzero)
      (λ s1 v. take_free_place-Registration r ip nonzero v.1 name v.0)
