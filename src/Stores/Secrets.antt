-- ===== src/Stores/Secrets.antt =====
-- `makeSecretStore` and `makeUserSecretStore` of apps/web/src/stores.ts. Kept bytes are base64 text,
-- which is empty exactly when they are; encoding and decoding an entry is the same entry.
use reference_app.Prelude.{
  List, Option, String, delete, if◌then◌else◌, insert, lookup, map, nat_eq, none, option_eq,
  pair_eq, some, string_eq, ℕ, ◌==◌,
}
use reference_app.Stores.{Browser, LocalStorage, Outcome, Partition, UserSecrets, store_item}

-- `val ? fromBase64Url(val) : null`
abbrev pub bytes_of : Option String → Option String
bytes_of none = none
bytes_of (some text) = if text == "" then none else some text

unfoldable pub load_secret : LocalStorage → Partition → ℕ → ℕ → Option String
load_secret s p c kind = bytes_of (lookup s.secret_rows ((p, c), kind))

unfoldable pub load_secrets : LocalStorage → Partition → List ℕ → ℕ → List (Option String)
load_secrets s p cs kind = map (λ c. bytes_of (lookup s.secret_rows ((p, c), kind))) cs

unfoldable pub save_secret : Browser → LocalStorage → Partition → ℕ → ℕ → String → Outcome Unit
unfolding store_item
save_secret b s p c kind value =
    store_item b s (record s { secret_rows = insert s.secret_rows ((p, c), kind) value })

unfoldable pub remove_secret : LocalStorage → Partition → ℕ → ℕ → LocalStorage
remove_secret s p c kind = record s { secret_rows = delete s.secret_rows ((p, c), kind) }

unfoldable pub load_latest : LocalStorage → Partition → Option UserSecrets
load_latest s p = lookup s.user_secrets p

unfoldable pub save_latest : Browser → LocalStorage → Partition → UserSecrets → Outcome Unit
unfolding store_item
save_latest b s p value = store_item b s (record s { user_secrets = insert s.user_secrets p value })

unfoldable pub remove_latest : LocalStorage → Partition → LocalStorage
remove_latest s p = record s { user_secrets = delete s.user_secrets p }
