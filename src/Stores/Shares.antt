-- ===== src/Stores/Shares.antt =====
-- `makeShareStore` of apps/web/src/stores.ts: the shares that a helper keeps for a channel. The
-- bytes of a share are the base64 text of its row, which is empty exactly when they are.
pub mod Rows
pub mod Removal
pub mod Refinement
pub mod Latest
use reference_app.Prelude.{
  Bool, List, Option, String, [], delete, false, filter, if◌then◌else◌, includes, insert, length,
  lookup, ltb, nat_beq, nat_eq, none, not, option_eq, or_else, pair_eq, set_delete, set_of, some,
  string_eq, true, ℕ, ◌++◌, ◌==◌, ◌∷◌,
}
use reference_app.Stores.{
  Browser, LocalStorage, Outcome, Partition, add_to_index, and_then, done, load_array, store_item,
}

pub record Share : Type 0 where
  pub secret_id : String
  pub version : ℕ
  pub bytes : String

abbrev pub share_of : String → Option String → ℕ → String → Share
share_of secret_id meta version bytes = record {
  secret_id = or_else meta secret_id;
  version = version;
  bytes = bytes;
}

-- `if (!dataVal) return null`
unfoldable pub read_share : LocalStorage → Partition → ℕ → ℕ → Option Share
read_share s p c v = elim (lookup s.share_data ((p, c), v)) [
  | none ↦ none
  | some bytes ↦
      if bytes == "" then none else some (share_of p.1 (lookup s.share_meta ((p, c), v)) v bytes)
]

unfoldable pub load_raw_share : LocalStorage → Partition → ℕ → ℕ → Option String
load_raw_share s p c v = lookup s.share_data ((p, c), v)

unfoldable pub versions_for : LocalStorage → Partition → ℕ → List ℕ
versions_for s p c = load_array (lookup s.channel_versions (p, c))

unfoldable pub channels_with_shares : LocalStorage → Partition → List ℕ
channels_with_shares s p = load_array (lookup s.share_channels p)

abbrev pub read_shares : LocalStorage → Partition → ℕ → List ℕ → List Share
read_shares s p c [] = []
read_shares s p c (v ∷ vs) =
    let rest = read_shares s p c vs in
    elim (read_share s p c v) [ none ↦ rest | some share ↦ share ∷ rest ]

abbrev is_nil : List ℕ → Bool
is_nil [] = true
is_nil (v ∷ vs) = false

unfoldable pub load : LocalStorage → Partition → ℕ → List ℕ → List Share
unfolding versions_for
load s p c versions = read_shares s p c (if is_nil versions then versions_for s p c else versions)

abbrev pub wanted : List ℕ → List ℕ → List ℕ
wanted versions stored = if is_nil versions then stored else filter (includes versions) stored

unfoldable pub load_many : LocalStorage → Partition → List ℕ → List ℕ → List Share
unfolding versions_for
load_many s p [] versions = []
load_many s p (c ∷ cs) versions =
    read_shares s p c (wanted versions (versions_for s p c)) ++ load_many s p cs versions

unfoldable pub load_all : LocalStorage → Partition → List ℕ → List Share
unfolding load_many
load_all s p channel_ids = load_many s p channel_ids []

abbrev pub with_data : LocalStorage → Partition → ℕ → Share → LocalStorage
with_data s p c share = record s {
  share_data = insert s.share_data ((p, c), share.version) share.bytes;
}

abbrev pub with_meta : LocalStorage → Partition → ℕ → Share → LocalStorage
with_meta s p c share = record s {
  share_meta = insert s.share_meta ((p, c), share.version) share.secret_id;
}

abbrev pub with_versions : LocalStorage → Partition → ℕ → List ℕ → LocalStorage
with_versions s p c vs = record s { channel_versions = insert s.channel_versions (p, c) vs }

abbrev pub with_channels : LocalStorage → Partition → List ℕ → LocalStorage
with_channels s p cs = record s { share_channels = insert s.share_channels p cs }

unfoldable pub save : Browser → LocalStorage → Partition → ℕ → Share → Outcome Unit
unfolding store_item add_to_index versions_for channels_with_shares
save b s p c share = and_then (store_item b s (with_data s p c share)) (λ s1 _.
    and_then (store_item b s1 (with_meta s1 p c share)) (λ s2 _.
      and_then (add_to_index b s2 (versions_for s2 p c) share.version (with_versions s2 p c))
        (λ s3 _. add_to_index b s3 (channels_with_shares s3 p) c (with_channels s3 p))))

-- the loops of `latestVersion`
abbrev pub greater_of : Option ℕ → ℕ → Option ℕ
greater_of none v = some v
greater_of (some best) v = if ltb best v then some v else some best

abbrev pub greatest : Option ℕ → List ℕ → Option ℕ
greatest best [] = best
greatest best (v ∷ vs) = greatest (greater_of best v) vs

abbrev pub latest_in : LocalStorage → Partition → Option ℕ → List ℕ → Option ℕ
latest_in s p best [] = best
latest_in s p best (c ∷ cs) = latest_in s p (greatest best (versions_for s p c)) cs

unfoldable pub latest_version : LocalStorage → Partition → Option ℕ
unfolding channels_with_shares
latest_version s p = latest_in s p none (channels_with_shares s p)

-- the loop that removes the two rows of each version
abbrev pub remove_shares : LocalStorage → Partition → ℕ → List ℕ → LocalStorage
remove_shares s p c [] = s
remove_shares s p c (v ∷ vs) =
    remove_shares
      (record s {
        share_data = delete s.share_data ((p, c), v);
        share_meta = delete s.share_meta ((p, c), v);
      })
      p c vs

abbrev pub drop_versions : LocalStorage → Partition → ℕ → LocalStorage
drop_versions s p c = record s { channel_versions = delete s.channel_versions (p, c) }

-- the channel leaves the index of channels with shares
abbrev pub drop_channel : Browser → LocalStorage → Partition → ℕ → Outcome Unit
drop_channel b s p c = store_item b s (with_channels s p (set_delete (channels_with_shares s p) c))

unfoldable pub remove_channel : Browser → LocalStorage → Partition → ℕ → Outcome Unit
unfolding versions_for
remove_channel b s p c =
    drop_channel b (drop_versions (remove_shares s p c (versions_for s p c)) p c) p c

-- what is left of the channel's index: unchanged, shorter, or nothing
abbrev pub write_kept : Browser → LocalStorage → Partition → ℕ → List ℕ → List ℕ → Outcome Unit
write_kept b s p c stored kept =
    if nat_beq (length kept) (length stored)
    then done s tt
    else if ltb 0 (length kept)
    then store_item b s (with_versions s p c kept)
    else drop_channel b (drop_versions s p c) p c

unfoldable pub remove_versions : Browser → LocalStorage → Partition → ℕ → List ℕ → Outcome Unit
unfolding versions_for
remove_versions b s p c [] = done s tt
remove_versions b s p c (v ∷ vs) =
    let doomed = set_of [] (v ∷ vs) in
    let s1 = remove_shares s p c doomed in
    let stored = versions_for s1 p c in
    write_kept b s1 p c stored (filter (λ x. not (includes doomed x)) stored)

-- `keepList`, over the option that the store was made with
unfoldable pub keep_list : Option (String → ℕ → Option (List ℕ)) → String → ℕ → Option (List ℕ)
keep_list none secret_id version = none
keep_list (some origin) secret_id version = origin secret_id version
