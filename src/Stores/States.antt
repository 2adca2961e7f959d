-- ===== src/Stores/States.antt =====
-- `canonicalStateKey`, `makeStateStore` and `openSharingRoundVersions` of apps/web/src/stores.ts. A
-- composite is the values that its text joins; `?? ''` of a missing number is `none`.
pub mod Rounds
use reference_app.Prelude.{
  Bool, List, Option, [], delete, filter, has, if◌then◌else◌, insert, leb, lookup, ltb, map, nat_eq,
  none, option_eq, or_else, pair_eq, set_delete, some, string_eq, ℕ, ◌&&◌, ◌==◌, ◌||◌, ◌∷◌,
}
use reference_app.Stores.{
  Browser, Composite, LocalStorage, Outcome, Partition, StateItem, StateKeyFields, add_to_index,
  and_then, done, load_array, store_item,
}

unfoldable pub canonical_state_key : StateKeyFields → Composite
canonical_state_key fields =
    if fields.kind == 0 || fields.kind == 2
    then ((fields.kind, or_else fields.channel_id ""), none)
    else if fields.kind == 1
    then ((1, or_else fields.secret_id ""), fields.version)
    else if fields.kind == 3
    then ((3, ""), fields.version)
    else ((4, ""), none)

unfoldable pub state_index_of : LocalStorage → Partition → ℕ → List Composite
state_index_of s p kind = load_array (lookup s.state_index (p, kind))

abbrev pub with_state_row : LocalStorage → Partition → StateItem → LocalStorage
with_state_row s p item = record s {
  state_rows = insert s.state_rows (p, canonical_state_key item.fields) item;
}

abbrev pub with_state_index : LocalStorage → Partition → ℕ → List Composite → LocalStorage
with_state_index s p kind index = record s { state_index = insert s.state_index (p, kind) index }

unfoldable pub save_state : Browser → LocalStorage → Partition → StateItem → Outcome Unit
unfolding store_item add_to_index state_index_of canonical_state_key
save_state b s p item = and_then (store_item b s (with_state_row s p item)) (λ s1 _.
    add_to_index b s1 (state_index_of s1 p item.fields.kind) (canonical_state_key item.fields)
      (with_state_index s1 p item.fields.kind))

unfoldable pub load_state : LocalStorage → Partition → StateKeyFields → Option StateItem
unfolding canonical_state_key
load_state s p fields = lookup s.state_rows (p, canonical_state_key fields)

-- the Boolean of the result says whether there was a row
unfoldable pub remove_state : Browser → LocalStorage → Partition → StateKeyFields → Outcome Bool
unfolding store_item state_index_of canonical_state_key
remove_state b s p fields =
    let composite = canonical_state_key fields in
    let s1 = record s { state_rows = delete s.state_rows (p, composite) } in
    and_then
      (store_item b s1 (
        with_state_index s1 p fields.kind (set_delete (state_index_of s1 p fields.kind) composite)))
      (λ s2 _. done s2 (has s.state_rows (p, composite)))

abbrev pub rows_of : LocalStorage → Partition → List Composite → List StateItem
rows_of s p [] = []
rows_of s p (composite ∷ rest) =
    let others = rows_of s p rest in
    elim (lookup s.state_rows (p, composite)) [ none ↦ others | some item ↦ item ∷ others ]

unfoldable pub load_all_states : LocalStorage → Partition → ℕ → List StateItem
unfolding state_index_of
load_all_states s p kind = rows_of s p (state_index_of s p kind)

-- `Number.MAX_SAFE_INTEGER`
abbrev pub max_safe_integer : ℕ
max_safe_integer = 9007199254740991

abbrev pub is_round_version : ℕ → Bool
is_round_version version = leb version max_safe_integer && ltb 0 version

-- `Number('')` is 0
abbrev pub composite_version : Composite → ℕ
composite_version composite = or_else composite.1 0

unfoldable pub open_sharing_round_versions : LocalStorage → Partition → List ℕ
unfolding state_index_of
open_sharing_round_versions s p = filter is_round_version (
    map composite_version
      (filter (λ composite. has s.state_rows (p, composite)) (state_index_of s p 3)))
