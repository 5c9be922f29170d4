-- ===== src/Commitment/Tests.antt =====
-- commitment.go with a leader and two followers.
use perf_raft.Prelude.{ℕ, ◌≡◌, String, false, [], ◌∷◌, arith}
use perf_raft.Commitment.{Commitment, new_commitment}
use perf_raft.Commitment.Majority.{IsSettled}
use perf_raft.Commitment.Order.{take_reports, take_reports_perm}
use perf_raft.Commitment.Membership.{new_commitment-IsSettled}
use mathlib.Core.List.{Perm}
use mathlib.Core.List.Perm.{swap as perm_swap}
use perf_raft.Samples.{three}

abbrev fresh : Commitment
fresh = new_commitment false three 5

fresh-IsSettled : IsSettled fresh
fresh-IsSettled = new_commitment-IsSettled false three 5 (omega arith)

swapped : Perm {A = String × ℕ} (("a", 7) ∷ ("b", 6) ∷ []) (("b", 6) ∷ ("a", 7) ∷ [])
swapped = perm_swap ("b", 6) ("a", 7) []

take_reports_perm_example :
    (take_reports fresh (("a", 7) ∷ ("b", 6) ∷ [])).commit_index
    ≡ (take_reports fresh (("b", 6) ∷ ("a", 7) ∷ [])).commit_index
take_reports_perm_example =
    take_reports_perm fresh (("a", 7) ∷ ("b", 6) ∷ []) (("b", 6) ∷ ("a", 7) ∷ []) fresh-IsSettled
      swapped
