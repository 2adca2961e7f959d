-- ===== src/KeepList/Tests.antt =====
-- A run of `keepListFor`, and examples of what is proved of it.
use reference_app.Bag.{committed_versions_of}
use reference_app.Bag.Order.{IsOrdered}
use reference_app.KeepList.{keep_list_for, persisted_open}
use reference_app.KeepList.Laws.{current-keep_list_for}
use reference_app.KeepList.Newest.{includes-keep_list_for, newer_committed}
use reference_app.Prelude.{
  List, String, [], arith, includes, ltb, nat_eq, not, option_eq, pair_eq, refl, some, sort,
  sort_insert, string_eq, true, ℕ, ◌&&◌, ◌==◌, ◌||◌, ◌∷◌, ◌≡◌,
}
use reference_app.Samples.{sample_vault, three_versions}

abbrev kept_five : List ℕ
kept_five = 4 ∷ 3 ∷ 2 ∷ 1 ∷ []

abbrev other_secret : String
other_secret = "other"

five_keeps : keep_list_for sample_vault "s" 5 (3 ∷ 6 ∷ []) ≡ some kept_five
unfolding keep_list_for committed_versions_of sort sort_insert
five_keeps = refl

three_versions-IsOrdered : IsOrdered three_versions
three_versions-IsOrdered = ((omega arith, (omega arith, tt)), ((omega arith, tt), (tt, tt)))

includes-keep_list_for_example : includes kept_five 3 ≡ (
    includes (committed_versions_of sample_vault.secret_bag) 3
      && not (◌==◌ {A = ℕ} 3 5)
      && ltb (newer_committed sample_vault 5 3) 3
    || (ltb 3 5 && includes (3 ∷ 6 ∷ persisted_open sample_vault) 3))
includes-keep_list_for_example =
    includes-keep_list_for sample_vault "s" 5 (3 ∷ 6 ∷ []) kept_five 3 five_keeps

current-keep_list_for_example : includes kept_five 4 ≡ true
current-keep_list_for_example =
    current-keep_list_for sample_vault three_versions "s" 5 (3 ∷ 6 ∷ []) kept_five refl
      three_versions-IsOrdered (λ e. omega (arith, e)) five_keeps
