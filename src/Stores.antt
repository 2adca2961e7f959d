-- ===== src/Stores.antt =====
-- apps/web/src/stores.ts over `localStorage`: one dictionary for each template of keys, whose key
-- holds the values that the template joins. The parts of a key have no colon in them, and no two
-- templates have the same literals, so the strings of the source differ where these keys do. What is
-- kept under a key is the value that the source encodes there (a JSON array, a base64 row).
pub mod Writes
pub mod Channels
pub mod Links
pub mod Shares
pub mod States
pub mod Secrets
pub mod Members
pub mod Delivery
mod Tests
use reference_app.Prelude.{
  Bool, Dict, Equality, List, Option, String, [], false, filter, if◌then◌else◌, includes, leb,
  nat_eq, none, not, option_eq, or_else, pair_eq, some, string_eq, ℕ, ◌&&◌, ◌++◌, ◌+◌, ◌<>◌, ◌==◌,
  ◌∷◌,
}

-- the namespace and the secret id that a key starts with
abbrev pub Partition : Type 0
Partition = String × String

-- What the JSON of a channel row names. `legacy` is the row of an older build, with one endpoint.
pub data RowVariant : Type 0 where
  helper_variant replica_variant : RowVariant

pub data StoredProtocol : Type 0 where
  protocol_number : ℕ → StoredProtocol
  protocol_name : String → StoredProtocol
  protocol_unknown : StoredProtocol

pub record StoredTransport : Type 0 where
  pub uri : Option String
  pub protocol : StoredProtocol

pub data RowTransports : Type 0 where
  listed : List StoredTransport → RowTransports
  legacy : StoredTransport → RowTransports
  unlisted : RowTransports

pub record ChannelRecord : Type 0 where
  pub variant : RowVariant
  pub status : Option String
  pub role : Option String
  pub created_at : Option ℕ
  pub channel_id : Option ℕ
  pub name : Option String
  pub transports : RowTransports

-- `unreadable` is a text that is not JSON and does not start as a row does; it may still have a
-- channel id in it.
pub data StoredRow : Type 0 where
  readable : ChannelRecord → StoredRow
  unreadable : Option ℕ → StoredRow
  empty_row : StoredRow

pub record StateKeyFields : Type 0 where
  pub kind : ℕ
  pub channel_id : Option String
  pub secret_id : Option String
  pub version : Option ℕ

pub record StateItem : Type 0 where
  pub fields : StateKeyFields
  pub body : String

-- the parts that `canonicalStateKey` joins with colons
abbrev pub Composite : Type 0
Composite = (ℕ × String) × Option ℕ

pub record UserSecretEntry : Type 0 where
  pub id : String
  pub name : String
  pub data_bytes : String

pub record UserSecrets : Type 0 where
  pub version : ℕ
  pub secrets : List UserSecretEntry
  pub description : Option String

pub record LocalStorage : Type 0 where
  pub helper_rows : Dict (Partition × ℕ) StoredRow
  pub member_rows : Dict (Partition × ℕ) StoredRow
  pub helper_index : Dict Partition (List ℕ)
  pub member_index : Dict Partition (List ℕ)
  pub channel_links : Dict Partition (Dict ℕ (List ℕ))
  pub secret_rows : Dict ((Partition × ℕ) × ℕ) String
  pub share_data : Dict ((Partition × ℕ) × ℕ) String
  pub share_meta : Dict ((Partition × ℕ) × ℕ) String
  pub channel_versions : Dict (Partition × ℕ) (List ℕ)
  pub share_channels : Dict Partition (List ℕ)
  pub user_secrets : Dict Partition UserSecrets
  pub state_rows : Dict (Partition × Composite) StateItem
  pub state_index : Dict (Partition × ℕ) (List Composite)
  pub last_quota_failure_at : Option ℕ

-- What the browser decides: whether `setItem` has room for the store that would result, and the
-- clock.
pub record Browser : Type 0 where
  pub has_room : LocalStorage → LocalStorage → Bool
  pub now : ℕ

-- A call that may end with the exception `StorageQuotaError`, which leaves what it wrote before.
pub data Outcome (A : Type 0) : Type 0 where
  done : LocalStorage → A → Outcome A
  quota_exceeded : LocalStorage → Outcome A

abbrev pub after : {A : Type 0} → Outcome A → LocalStorage
after (done s a) = s
after (quota_exceeded s) = s

abbrev pub and_then : {A B : Type 0} → Outcome A → (LocalStorage → A → Outcome B) → Outcome B
and_then (done s a) f = f s a
and_then (quota_exceeded s) f = quota_exceeded s

unfoldable pub store_item : Browser → LocalStorage → LocalStorage → Outcome Unit
store_item b before written =
    if b.has_room before written
    then done written tt
    else quota_exceeded (record before { last_quota_failure_at = some b.now })

-- `loadStringArray` and `loadNumberArray`
abbrev pub load_array : {A : Type 0} → Option (List A) → List A
load_array stored = or_else stored []

-- `put` writes the index that it is given
unfoldable pub add_to_index :
    {A : Type 0} ⦃e : Equality A⦄
    → Browser
    → LocalStorage
    → List A
    → A
    → (List A → LocalStorage)
    → Outcome Unit
unfolding store_item
add_to_index b s index value put =
    if includes index value then done s tt else store_item b s (put (index ++ value ∷ []))

-- `takeStorageQuotaFailure`
unfoldable pub take_storage_quota_failure : LocalStorage → ℕ → Bool × LocalStorage
take_storage_quota_failure s since = (
  elim s.last_quota_failure_at [ none ↦ false | some at ↦ leb since at ],
  record s { last_quota_failure_at = none },
)

abbrev quota_failure_relevance_ms : ℕ
quota_failure_relevance_ms = 60000

abbrev storage_full_message : String
storage_full_message =
    "This browser’s storage for the app is full, so the change could not be saved. Remove vaults or secrets you no longer need (or use smaller secrets), then try again."

-- `is_about_storage` is the regular expression that the error's text is put to
unfoldable pub describe_storage_failure : (String → Bool) → Browser → LocalStorage → String → String
describe_storage_failure is_about_storage b s error = elim s.last_quota_failure_at [
  | none ↦ error
  | some at ↦
      if leb b.now (at + quota_failure_relevance_ms) && is_about_storage error
      then storage_full_message <> " (" <> error <> ")"
      else error
]

module _ {K V : Type 0} where
  -- the entries whose key is not in the namespace
  abbrev outside : (K → Partition) → String → Dict K V → Dict K V
  outside partition_of namespace = filter (λ kv. not ((partition_of kv.0).0 == namespace))

unfoldable pub clear_namespace : LocalStorage → String → LocalStorage
clear_namespace s namespace = record {
  helper_rows = outside (λ k. k.0) namespace s.helper_rows;
  member_rows = outside (λ k. k.0) namespace s.member_rows;
  helper_index = outside (λ k. k) namespace s.helper_index;
  member_index = outside (λ k. k) namespace s.member_index;
  channel_links = outside (λ k. k) namespace s.channel_links;
  secret_rows = outside (λ k. k.0.0) namespace s.secret_rows;
  share_data = outside (λ k. k.0.0) namespace s.share_data;
  share_meta = outside (λ k. k.0.0) namespace s.share_meta;
  channel_versions = outside (λ k. k.0) namespace s.channel_versions;
  share_channels = outside (λ k. k) namespace s.share_channels;
  user_secrets = outside (λ k. k) namespace s.user_secrets;
  state_rows = outside (λ k. k.0) namespace s.state_rows;
  state_index = outside (λ k. k.0) namespace s.state_index;
  last_quota_failure_at = s.last_quota_failure_at;
}
