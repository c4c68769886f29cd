-- ===== src/ClientDb/Search.antt =====
-- The searches of MusicServer/src/clientdb.c, and what the release of a client's files leaves alone.
use music_server_app.Base.{
  ℕ, zero, suc, ◌+◌, ◌≤◌, ◌<◌, ◌≡◌, inl, inr, refl, ◌∙◌, Bool, true, false, arith, ◌==◌, Bool-cases,
  max_client,
}
use music_server_app.PlayList.{PlState}
use music_server_app.ClientDb.{Server, find_from, find_client, unlink, set_scheduled}
use music_server_app.ClientDb.Register.{
  give_up_scheduled, give_up_position, check_and_delete_current_list,
}

-- The search found the first place that passes the test, or none of the places does.
pub data Search (test : ℕ → Bool) (from bound r : ℕ) : Type 0 where
  found : from ≤ r → r < bound → test r ≡ true → Search test from bound r
  missing : r ≡ bound → ((i : ℕ) → from ≤ i → i < bound → test i ≡ false) → Search test from bound r

find_from-Search : (k i : ℕ) (test : ℕ → Bool) → Search test i (i + k) (find_from k i test)
unfolding find_from
find_from-Search zero i test = missing (omega arith) (λ j l h. absurd (omega (arith, l, h)))
find_from-Search (suc k) i test = elim (Bool-cases (test i)) [
  | inl hit ↦ rw hit (found (omega arith) (omega arith) hit)
  | inr miss ↦ rw miss (behind (find_from-Search k (i + 1) test) miss)
]
  where
    behind :
        Search test (i + 1) (i + 1 + k) (find_from k (i + 1) test)
        → test i ≡ false
        → Search test i (i + suc k) (find_from k (i + 1) test)
    behind (found l h t) miss = found (omega (arith, l)) (omega (arith, h)) t
    behind (missing e none_passes) miss = missing (omega (arith, e)) λ j l h.
        elim (Bool-cases (j == i)) [
          | inl same ↦ let at_i : j ≡ i = ground arith in rw at_i miss
          | inr other ↦ none_passes j (ground arith) (omega arith)
        ]

pub find_client-Search : (test : ℕ → Bool) → Search test 0 max_client (find_client test)
unfolding find_client
find_client-Search test = find_from-Search max_client 0 test

-- An operation that leaves the registered clients, the play list and the network alone.
pub record KeepsClients (s s' : Server) : Type 0 where
  pub same_ids : s'.client_id ≡ s.client_id
  pub same_ips : s'.client_ip ≡ s.client_ip
  pub same_states : s'.client_state ≡ s.client_state
  pub same_list : s'.pl ≡ s.pl
  pub same_calls : s'.network_calls ≡ s.network_calls
  pub same_outbox : s'.outbox ≡ s.outbox
  pub same_env : s'.env ≡ s.env

abbrev kept : (s : Server) → KeepsClients s s
kept s = record {
  same_ids = refl;
  same_ips = refl;
  same_states = refl;
  same_list = refl;
  same_calls = refl;
  same_outbox = refl;
  same_env = refl;
}

give_up_scheduled-KeepsClients :
    (s : Server) (i : ℕ) (state : PlState) → KeepsClients s (give_up_scheduled s i state)
unfolding give_up_scheduled unlink set_scheduled
give_up_scheduled-KeepsClients s i PlState.playing = record {
  same_ids = refl;
  same_ips = refl;
  same_states = refl;
  same_list = refl;
  same_calls = refl;
  same_outbox = refl;
  same_env = refl;
}
give_up_scheduled-KeepsClients s i PlState.ready = record {
  same_ids = refl;
  same_ips = refl;
  same_states = refl;
  same_list = refl;
  same_calls = refl;
  same_outbox = refl;
  same_env = refl;
}
give_up_scheduled-KeepsClients s i PlState.unset = kept s
give_up_scheduled-KeepsClients s i PlState.waiting = kept s
give_up_scheduled-KeepsClients s i PlState.downloading = kept s

give_up_position-KeepsClients : (s : Server) (id i : ℕ) → KeepsClients s (give_up_position s id i)
unfolding give_up_position
give_up_position-KeepsClients s id i = elim (Bool-cases ((s.sch_data i).client_id == id)) [
  | inl e ↦ rw e (give_up_scheduled-KeepsClients s i (s.sch_data i).status)
  | inr e ↦ rw e (kept s)
]

KeepsClients-trans : {a b c : Server} → KeepsClients a b → KeepsClients b c → KeepsClients a c
KeepsClients-trans f g = record {
  same_ids = g.same_ids ∙ f.same_ids;
  same_ips = g.same_ips ∙ f.same_ips;
  same_states = g.same_states ∙ f.same_states;
  same_list = g.same_list ∙ f.same_list;
  same_calls = g.same_calls ∙ f.same_calls;
  same_outbox = g.same_outbox ∙ f.same_outbox;
  same_env = g.same_env ∙ f.same_env;
}

pub check_and_delete_current_list-KeepsClients :
    (s : Server) (id : ℕ) → KeepsClients s (check_and_delete_current_list s id)
unfolding check_and_delete_current_list
check_and_delete_current_list-KeepsClients s id =
    KeepsClients-trans (give_up_position-KeepsClients s id 0)
      (give_up_position-KeepsClients (give_up_position s id 0) id 1)
