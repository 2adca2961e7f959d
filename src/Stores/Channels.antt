-- ===== src/Stores/Channels.antt =====
-- `makeChannelStore` and `forgetHelperChannel` of apps/web/src/stores.ts. A helper's row is under its
-- channel, a group member's under its replica id. What the store answers with, the JSON array that
-- `spliceRecords` writes, is the list of its records.
pub mod Forgetting
pub mod Traces
use reference_app.Prelude.{
  Bool, Dict, List, Option, String, [], any, delete, false, has, if◌then◌else◌, includes, insert,
  is_some, lookup, nat_eq, none, not, option_eq, or_else, pair_eq, set_delete, some, string_eq,
  true, ℕ, ◌&&◌, ◌==◌, ◌||◌, ◌∷◌,
}
use reference_app.Stores.{
  Browser, ChannelRecord, LocalStorage, Outcome, Partition, RowVariant, StoredRow, add_to_index,
  and_then, done, empty_row, helper_variant, legacy, listed, load_array, readable, replica_variant,
  store_item, unlisted, unreadable,
}
use reference_app.Stores.Links.{LinkTable, link_table}
use reference_app.Stores.Shares.{
  channels_with_shares, drop_channel, drop_versions, remove_shares, versions_for,
}

pub record ChannelFilter : Type 0 where
  pub ids : List ℕ
  pub status : List String
  pub role : Option String
  pub exclude : List ℕ

abbrev helper_replica_id : ℕ
helper_replica_id = 0

abbrev default_status : String
default_status = "Paired"

abbrev same_variant : RowVariant → RowVariant → Bool
same_variant helper_variant helper_variant = true
same_variant replica_variant replica_variant = true
same_variant _ _ = false

pub record Attributes : Type 0 where
  pub status : String
  pub role : Option String

unfoldable pub read_attributes : StoredRow → RowVariant → Option Attributes
read_attributes (unreadable id) variant = none
read_attributes empty_row variant = none
read_attributes (readable r) variant =
    if same_variant r.variant variant
    then some (record { status = or_else r.status default_status; role = r.role })
    else none

-- `liftLegacyTransport`
unfoldable pub lift_legacy_transport : ChannelRecord → ChannelRecord
lift_legacy_transport r = elim r.transports [
  | listed ts ↦ r
  | legacy t ↦ record r { transports = listed (t ∷ []) }
  | unlisted ↦ r
]

abbrev pub spliced : StoredRow → RowVariant → Option ChannelRecord
unfolding lift_legacy_transport
spliced (readable r) variant =
    if same_variant r.variant variant then some (lift_legacy_transport r) else none
spliced _ variant = none

unfoldable pub splice_records : List StoredRow → RowVariant → List ChannelRecord
splice_records [] variant = []
splice_records (row ∷ rows) variant =
    let rest = splice_records rows variant in
    elim (spliced row variant) [ none ↦ rest | some r ↦ r ∷ rest ]

abbrev pub RowTable : Type 0
RowTable = Dict (Partition × ℕ) StoredRow

-- `localStorage.getItem(…)` under `if (!row)`
unfoldable pub row_at : RowTable → Partition → ℕ → Option StoredRow
row_at rows p id = elim (lookup rows (p, id)) [
  | none ↦ none
  | some empty_row ↦ none
  | some (readable r) ↦ some (readable r)
  | some (unreadable channel_id) ↦ some (unreadable channel_id)
]

abbrev nonempty : {A : Type 0} → List A → Bool
nonempty [] = false
nonempty (x ∷ xs) = true

-- the tests on the id, and on the record
unfoldable pub id_passes : ChannelFilter → ℕ → Bool
id_passes f id =
    if nonempty f.ids && not (includes f.ids id) then false else not (includes f.exclude id)

abbrev attributes_pass : ChannelFilter → Option Attributes → Bool
attributes_pass f none = false
attributes_pass f (some a) =
    if nonempty f.status && not (includes f.status a.status)
    then false
    else not (is_some f.role && not (f.role == a.role))

unfoldable pub record_passes : ChannelFilter → StoredRow → RowVariant → Bool
unfolding read_attributes
record_passes f row variant =
    if nonempty f.status || is_some f.role
    then attributes_pass f (read_attributes row variant)
    else true

unfoldable pub passes : Option ChannelFilter → ℕ → StoredRow → RowVariant → Bool
unfolding id_passes record_passes
passes none id row variant = true
passes (some f) id row variant = id_passes f id && record_passes f row variant

abbrev pub keep_row :
    Option ChannelFilter → ℕ → Option StoredRow → RowVariant → List StoredRow → List StoredRow
keep_row f id none variant rest = rest
keep_row f id (some row) variant rest = if passes f id row variant then row ∷ rest else rest

unfoldable pub select_rows :
    RowTable → Partition → List ℕ → Option ChannelFilter → RowVariant → List StoredRow
unfolding row_at passes
select_rows rows p [] f variant = []
select_rows rows p (id ∷ ids) f variant =
    keep_row f id (row_at rows p id) variant (select_rows rows p ids f variant)

unfoldable pub list_helpers : LocalStorage → Partition → Option ChannelFilter → List ChannelRecord
unfolding select_rows splice_records
list_helpers s p f =
    splice_records
      (select_rows s.helper_rows p (load_array (lookup s.helper_index p)) f helper_variant)
      helper_variant

unfoldable pub list_replicas : LocalStorage → Partition → Option ChannelFilter → List ChannelRecord
unfolding select_rows splice_records
list_replicas s p f =
    splice_records
      (select_rows s.member_rows p (load_array (lookup s.member_index p)) f replica_variant)
      replica_variant

abbrev pub lifted : StoredRow → StoredRow
unfolding lift_legacy_transport
lifted (readable r) = readable (lift_legacy_transport r)
lifted row = row

abbrev pub lifted_of : Option StoredRow → Option StoredRow
lifted_of none = none
lifted_of (some row) = some (lifted row)

unfoldable pub load_channel : LocalStorage → Partition → ℕ → ℕ → Option StoredRow
unfolding row_at
load_channel s p channel_id replica_id = lifted_of (
    if replica_id == helper_replica_id
    then row_at s.helper_rows p channel_id
    else row_at s.member_rows p replica_id)

abbrev pub with_helper_index : LocalStorage → Partition → List ℕ → LocalStorage
with_helper_index s p ids = record s { helper_index = insert s.helper_index p ids }

abbrev pub with_member_index : LocalStorage → Partition → List ℕ → LocalStorage
with_member_index s p ids = record s { member_index = insert s.member_index p ids }

unfoldable pub helper_ids : LocalStorage → Partition → List ℕ
helper_ids s p = load_array (lookup s.helper_index p)

unfoldable pub member_ids : LocalStorage → Partition → List ℕ
member_ids s p = load_array (lookup s.member_index p)

unfoldable pub save_channel : Browser → LocalStorage → Partition → ℕ → ℕ → StoredRow → Outcome Unit
unfolding store_item add_to_index helper_ids member_ids
save_channel b s p channel_id replica_id row =
    if replica_id == helper_replica_id
    then and_then
        (store_item b s (record s { helper_rows = insert s.helper_rows (p, channel_id) row }))
        (λ s1 _. add_to_index b s1 (helper_ids s1 p) channel_id (with_helper_index s1 p))
    else and_then
        (store_item b s (record s { member_rows = insert s.member_rows (p, replica_id) row }))
        (λ s1 _. add_to_index b s1 (member_ids s1 p) replica_id (with_member_index s1 p))

-- the Boolean of the result says whether there was a row
unfoldable pub remove_channel_row : Browser → LocalStorage → Partition → ℕ → ℕ → Outcome Bool
unfolding store_item helper_ids member_ids
remove_channel_row b s p channel_id replica_id =
    if replica_id == helper_replica_id
    then (let s1 = record s { helper_rows = delete s.helper_rows (p, channel_id) } in
        and_then
          (store_item b s1 (with_helper_index s1 p (set_delete (helper_ids s1 p) channel_id)))
          (λ s2 _. done s2 (has s.helper_rows (p, channel_id))))
    else (let s1 = record s { member_rows = delete s.member_rows (p, replica_id) } in
        and_then
          (store_item b s1 (with_member_index s1 p (set_delete (member_ids s1 p) replica_id)))
          (λ s2 _. done s2 (has s.member_rows (p, replica_id))))

-- the index of the helpers without one of them, written where it was listed
abbrev pub unlist_helper : Browser → LocalStorage → Partition → ℕ → Outcome Unit
unlist_helper b s p c =
    if includes (helper_ids s p) c
    then store_item b s (with_helper_index s p (set_delete (helper_ids s p) c))
    else done s tt

abbrev pub without_secrets : LocalStorage → Partition → ℕ → LocalStorage
without_secrets s p c = record s {
  secret_rows = delete (delete (delete s.secret_rows ((p, c), 0)) ((p, c), 1)) ((p, c), 2);
}

abbrev pub unlist_shares : Browser → LocalStorage → Partition → ℕ → Outcome Unit
unlist_shares b s p c =
    let rest = drop_versions (remove_shares s p c (versions_for s p c)) p c in
    if includes (channels_with_shares rest p) c then drop_channel b rest p c else done rest tt

abbrev pub unlinked : LinkTable → ℕ → LinkTable
unlinked [] c = []
unlinked ((a, xs) ∷ links) c =
    if a == c then unlinked links c else (a, set_delete xs c) ∷ unlinked links c

abbrev pub is_linked : LinkTable → ℕ → Bool
is_linked links c = has links c || any (λ entry. includes entry.1 c) links

abbrev pub unlink : Browser → LocalStorage → Partition → ℕ → Outcome Unit
unlink b s p c =
    if is_linked (link_table s p) c
    then store_item b s
        (record s { channel_links = insert s.channel_links p (unlinked (link_table s p) c) })
    else done s tt

unfoldable pub forget_helper_channel : Browser → LocalStorage → Partition → ℕ → Outcome Unit
unfolding store_item helper_ids versions_for channels_with_shares link_table
forget_helper_channel b s p c =
    and_then (unlist_helper b (record s { helper_rows = delete s.helper_rows (p, c) }) p c)
      (λ s1 _. and_then (unlist_shares b (without_secrets s1 p c) p c) (λ s2 _. unlink b s2 p c))
