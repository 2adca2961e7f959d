-- ===== src/Conflict/Merge.antt =====
-- What the merge of two diverged copies holds.
use reference_app.Conflict.{
  ConflictEntry, EntryResolution, as_list, by_id, chosen, conflict_entries, default_resolution,
  entry_of_mine, entry_of_theirs, id_in, merged_secrets, picked,
}
use reference_app.Prelude.{
  Dict, List, String, [], ap, filter, lookup, map, nat_eq, not, refl, string_eq, sym, ◌++◌, ◌∙◌,
  ◌∷◌, ◌≡◌,
}
use reference_app.Types.{UserSecret}
use mathlib.Core.List.{append_assoc}

merged_secrets-append :
    (xs ys : List ConflictEntry) (choices : Dict String EntryResolution)
    → merged_secrets (xs ++ ys) choices ≡ merged_secrets xs choices ++ merged_secrets ys choices
unfolding merged_secrets
merged_secrets-append [] ys choices = refl
merged_secrets-append (x ∷ xs) ys choices =
    ap (as_list (picked (chosen choices x) x) ++◌) (merged_secrets-append xs ys choices)
    ∙ sym (
        append_assoc (as_list (picked (chosen choices x) x)) (merged_secrets xs choices)
          (merged_secrets ys choices))

merged-mine :
    (theirs : Dict String UserSecret) (mine : List UserSecret)
    → merged_secrets (map (entry_of_mine theirs) mine) [] ≡ mine
unfolding merged_secrets default_resolution lookup
merged-mine theirs [] = refl
merged-mine theirs (s ∷ mine) = ap (s ∷◌) (merged-mine theirs mine)

merged-theirs : (theirs : List UserSecret) → merged_secrets (map entry_of_theirs theirs) [] ≡ theirs
unfolding merged_secrets default_resolution lookup
merged-theirs [] = refl
merged-theirs (s ∷ theirs) = ap (s ∷◌) (merged-theirs theirs)

-- With no choice made, the merge is this device's copy whole, and after it each secret of the rival
-- copy whose id this device does not have: nothing of either is lost but the rival's version of a
-- secret that both have.
pub merged_secrets-conflict_entries :
    (mine theirs : List UserSecret)
    → merged_secrets (conflict_entries mine theirs) []
      ≡ mine ++ filter (λ s. not (id_in mine s.id)) theirs
unfolding conflict_entries
merged_secrets-conflict_entries mine theirs =
    merged_secrets-append (map (entry_of_mine (by_id [] theirs)) mine)
      (map entry_of_theirs (filter (λ s. not (id_in mine s.id)) theirs)) []
    ∙ rw
        (
          merged-mine (by_id [] theirs) mine,
          merged-theirs (filter (λ s. not (id_in mine s.id)) theirs),
        )
        refl
