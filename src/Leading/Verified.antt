-- ===== src/Leading/Verified.antt =====
-- verifyLeader of raft.go and verifyFuture of future.go: what the leader concludes from the answers.
use perf_raft.Prelude.{
  ℕ, ◌+◌, ◌<◌, ◌≡◌, Bool, true, false, List, [], ◌∷◌, leb, ◌==◌, refl, arith, Bool-cases, inl, inr,
}
use perf_raft.Configuration.{Configuration, quorum_size}
use perf_raft.Leading.{VerifyFuture, verify_leader, vote, vote_all, is_verified}

-- How many servers agree before the first one that does not.
unfoldable pub leading_yes : List Bool → ℕ
leading_yes [] = 0
leading_yes (true ∷ bs) = leading_yes bs + 1
leading_yes (false ∷ bs) = 0

abbrev future_of : ℕ → ℕ → Bool → VerifyFuture
future_of quorum votes notified = record { quorum = quorum; votes = votes; notified = notified }

vote_all-notified :
    (quorum votes : ℕ) (bs : List Bool)
    → vote_all (future_of quorum votes true) bs ≡ future_of quorum votes true
unfolding vote_all vote
vote_all-notified quorum votes [] = refl
vote_all-notified quorum votes (true ∷ bs) = vote_all-notified quorum votes bs
vote_all-notified quorum votes (false ∷ bs) = vote_all-notified quorum votes bs

vote_all_lem :
    (quorum votes : ℕ) (bs : List Bool)
    → votes < quorum
    → is_verified (vote_all (future_of quorum votes false) bs) ≡ leb quorum (votes + leading_yes bs)
unfolding vote_all vote is_verified leading_yes
vote_all_lem quorum votes [] missing = ground arith
vote_all_lem quorum votes (false ∷ bs) missing = ground (arith, vote_all-notified quorum votes bs)
vote_all_lem quorum votes (true ∷ bs) missing = elim (Bool-cases (leb quorum (votes + 1))) [
  | inl k ↦ rw (vote_all, k) (ground (arith, vote_all-notified quorum (votes + 1) bs, k))
  | inr k ↦ rw (vote_all, k) (ground (arith, vote_all_lem quorum (votes + 1) bs (ground arith)))
]

-- The leader holds its leadership to be verified, and does not step down, exactly if together with
-- itself a quorum of the voters' number agrees before anyone does not.
pub verify_leader_lem :
    (configuration : Configuration) (bs : List Bool)
    → is_verified (vote_all (verify_leader configuration) bs)
      ≡ leb (quorum_size configuration) (leading_yes bs + 1)
unfolding verify_leader is_verified quorum_size
verify_leader_lem configuration bs =
    let quorum = quorum_size configuration in
    elim (Bool-cases (quorum == 1)) [
      | inl e ↦ rw e (ground (arith, vote_all-notified quorum 1 bs))
      | inr e ↦ rw e (ground (arith, vote_all_lem quorum 1 bs (ground arith)))
    ]
