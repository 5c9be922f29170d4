-- ===== src/Cluster/Tests.antt =====
-- Two servers of three vote for the third, which becomes leader.
use mathlib.Core.Bool.{false≢true}
use perf_raft.Prelude.{
  arith, str_eq, str_eq_iff, sym, subst, ◌∙◌, Bool-cases, String, true, false, ◌≡◌, [], ◌∷◌, refl,
  inl, inr, Elem,
}
use perf_raft.LogStore.{Bytes}
use perf_raft.InmemStore.{
  InmemStore, as_log_store, as_stable_store, get, set, get_uint64, set_uint64, lookup, insert,
}
use perf_raft.InmemStore.Kv.{inmem_stable_laws}
use perf_raft.Node.{
  Env, leader, set_state, set_leader, set_current_term, set_last_contact, persist_vote,
  get_last_entry,
}
use perf_raft.Vote.{
  request_vote, vote_result, vote_response, vote_in_new_term, cast_vote, read_vote, vote_once,
  vote_afresh, is_behind,
}
use perf_raft.Configuration.{quorum_size, count_voters, has_vote, in_configuration}
use perf_raft.Server.{up, vote_asked, Event, handle, handle_up, settle}
use perf_raft.Server.Safety.{Accounts}
use perf_raft.Candidate.{Campaign, Response, hear_votes, hear_vote, after_vote}
use perf_raft.Candidate.Tally.{said_yes}
use perf_raft.Cluster.{Cluster, step, Reaches, here, then_event}
use perf_raft.Cluster.Election.{Elected, Truthful, unchanged, Elected-unique}
use perf_raft.Samples.{sample_env, sample_node, three, vote_for}

abbrev before : Cluster InmemStore InmemStore
before id = record { server = up sample_node; grants = [] }

abbrev asked : Event
asked = vote_asked (vote_for "a" 1 2) 9

abbrev env : String → Env
env id = sample_env

abbrev after : Cluster InmemStore InmemStore
after =
    step as_stable_store as_log_store env 64
      (step as_stable_store as_log_store env 64 before "b" asked) "c" asked

Reaches-after : Reaches as_stable_store as_log_store env 64 before after
Reaches-after = then_event "c" asked (then_event "b" asked (here before) tt) tt

Accounts-before : (id : String) → Accounts as_stable_store (before id).server []
unfolding get_uint64 lookup
Accounts-before id = record {
  persisted = (1, refl, omega arith);
  one = λ t c d h k. absurd h;
  kept = λ t c h. absurd h;
}

abbrev yes_from : String → Response
yes_from id = record { voter_id = id; term = 2; granted = true }

abbrev counting : Campaign InmemStore InmemStore
counting = record {
  node = record sample_node { current_term = 2 };
  term = 2;
  pre_vote_granted_votes = 0;
  pre_vote_refused_votes = 0;
  granted_votes = 0;
  votes_needed = 2;
  pre_voting = false;
  voting = true;
}

grants_of_b : Elem (2, 1 ∷ []) (after "b").grants
unfolding step handle handle_up settle request_vote vote_result vote_response vote_in_new_term
    cast_vote read_vote vote_once vote_afresh is_behind get_last_entry persist_vote set_current_term
    set_state set_last_contact get_uint64 set_uint64 get set lookup insert in_configuration has_vote
grants_of_b = inl refl

grants_of_c : Elem (2, 1 ∷ []) (after "c").grants
unfolding step handle handle_up settle request_vote vote_result vote_response vote_in_new_term
    cast_vote read_vote vote_once vote_afresh is_behind get_last_entry persist_vote set_current_term
    set_state set_last_contact get_uint64 set_uint64 get set lookup insert in_configuration has_vote
grants_of_c = inl refl

truthful :
    Truthful as_stable_store inmem_stable_laws as_log_store env 64 after 2
      (1 ∷ [])
      (yes_from "b" ∷ yes_from "c" ∷ [])
unfolding said_yes
truthful id h = elim (Bool-cases (str_eq "b" id)) [
  | inl e ↦ subst (λ j. Elem (2, 1 ∷ []) (after j).grants) ((str_eq_iff "b" id).0 e) grants_of_b
  | inr e ↦ elim (Bool-cases (str_eq "c" id)) [
    | inl f ↦ subst (λ j. Elem (2, 1 ∷ []) (after j).grants) ((str_eq_iff "c" id).0 f) grants_of_c
    | inr f ↦ absurd (false≢true (sym (rw (e, f) refl) ∙ h))
  ]
]

won : Elected as_stable_store inmem_stable_laws as_log_store env 64 after three 2 (1 ∷ [])
unfolding has_vote quorum_size count_voters hear_votes hear_vote after_vote set_leader set_state
won = record {
  id = "a";
  campaign = counting;
  responses = yes_from "b" ∷ yes_from "c" ∷ [];
  winner = set_leader (set_state counting.node leader) "a" "a";
  in_term = refl;
  needs_quorum = refl;
  begins_at_zero = refl;
  once_each = (
    (λ e. elim e [ inl x ↦ absurd (false≢true ((str_eq_iff "c" "b").1 x)) | inr x ↦ absurd x ]),
    ((λ x. x), tt),
  );
  from_voters = (refl, (refl, tt));
  truthful = truthful;
  ends = refl;
  leads = refl;
}

abbrev candidate_addr : Bytes
candidate_addr = 1 ∷ []

Elected-unique_example : candidate_addr ≡ candidate_addr
Elected-unique_example =
    Elected-unique as_stable_store inmem_stable_laws as_log_store env 64 before after
      Accounts-before (λ id. refl) Reaches-after unchanged won won
