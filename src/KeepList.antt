-- ===== src/KeepList.antt =====
-- vault/keepList.ts: the versions that every helper keeps once a round lands.
pub mod Laws
pub mod Newest
mod Tests
use reference_app.Bag.{committed_versions_of}
use reference_app.Prelude.{
  Bool, List, Option, String, [], filter, if◌then◌else◌, leb, length, ltb, map, nat_beq, nat_eq,
  none, not, option_eq, or_else, pair_eq, set_add, set_of, some, sort, string_eq, take, ℕ, ◌++◌,
  ◌==◌, ◌∷◌,
}
use reference_app.Types.{Vault}

abbrev pub kept_committed_versions : ℕ
kept_committed_versions = 3

abbrev pub descending : ℕ → ℕ → Bool
descending a b = leb b a

-- the loop that adds the open rounds older than `version`
abbrev pub add_open : ℕ → List ℕ → List ℕ → List ℕ
add_open version kept [] = kept
add_open version kept (open_version ∷ rest) =
    add_open version (if ltb open_version version then set_add kept open_version else kept) rest

abbrev pub persisted_open : Vault → List ℕ
persisted_open vault = map (λ r. r.version) (or_else vault.pending_protect_rounds [])

abbrev pub newest_committed : Vault → ℕ → List ℕ
newest_committed vault version =
    take kept_committed_versions
      (filter (λ v. not (v == version)) (sort descending (committed_versions_of vault.secret_bag)))

abbrev pub keep_open : Vault → ℕ → List ℕ → List ℕ
keep_open vault version open_versions = sort descending (
    add_open version (set_of [] (newest_committed vault version))
      (open_versions ++ persisted_open vault))

unfoldable pub keep_list_for : Vault → String → ℕ → List ℕ → Option (List ℕ)
keep_list_for vault secret_id version open_versions =
    if not (secret_id == vault.secret_id)
    then none
    else if nat_beq (length (sort descending (committed_versions_of vault.secret_bag))) 0
    then none
    else some (keep_open vault version open_versions)
