-- ===== src/Bag/Tests.antt =====
-- Runs of the bag's operations, and examples of what is proved of them.
use reference_app.Bag.{bag_version_of, commit_into, commit_round_version, version_numbers}
use reference_app.Bag.Commit.{bag_version_of-commit_round_version, commit_round_version_comm}
use reference_app.Bag.Order.{IsOrdered}
use reference_app.Prelude.{[], arith, refl, some, sort, sort_insert, ◌∷◌, ◌≡◌}
use reference_app.Samples.{bag_of, three_versions}

late_round :
    version_numbers (commit_round_version (some three_versions) (bag_of 3 [])) ≡ 4 ∷ 3 ∷ 2 ∷ 1 ∷ []
unfolding commit_round_version commit_into sort sort_insert
late_round = refl

later_round :
    version_numbers (commit_round_version (some three_versions) (bag_of 6 [])) ≡ 6 ∷ 4 ∷ 2 ∷ 1 ∷ []
unfolding commit_round_version commit_into
later_round = refl

three_versions-IsOrdered : IsOrdered three_versions
three_versions-IsOrdered = ((omega arith, (omega arith, tt)), ((omega arith, tt), (tt, tt)))

commit_round_version_comm_example :
    commit_round_version
      (some (commit_round_version (some three_versions) (bag_of 3 [])))
      (bag_of 6 [])
    ≡ commit_round_version
        (some (commit_round_version (some three_versions) (bag_of 6 [])))
        (bag_of 3 [])
commit_round_version_comm_example =
    commit_round_version_comm three_versions (bag_of 3 []) (bag_of 6 []) three_versions-IsOrdered
      (λ e. omega (arith, e))

bag_version_of-commit_round_version_example :
    bag_version_of (some (commit_round_version (some three_versions) (bag_of 3 []))) 2
    ≡ bag_version_of (some three_versions) 2
bag_version_of-commit_round_version_example =
    bag_version_of-commit_round_version three_versions (bag_of 3 []) 2
