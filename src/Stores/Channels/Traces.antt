-- ===== src/Stores/Channels/Traces.antt =====
-- What `forgetHelperChannel` leaves of a channel, and of the others.
use reference_app.Prelude.{
  Option-cases, arith, delete, eq_iff, false, includes, inl, inr, lookup, lookup-delete, nat_eq,
  none, option_eq, pair_eq, string_eq, ℕ, ◌||◌, ◌≡◌, ◌≢◌, ◌≤◌,
}
use reference_app.Stores.{Browser, LocalStorage, Partition, done}
use reference_app.Stores.Channels.{forget_helper_channel, helper_ids, row_at, without_secrets}
use reference_app.Stores.Channels.Forgetting.{forget_helper_channel-done}
use reference_app.Stores.Links.{link_table, peers}
use reference_app.Stores.Secrets.{bytes_of, load_secret}
use reference_app.Stores.Shares.{channels_with_shares, load_raw_share, read_share, versions_for}
use reference_app.Stores.Shares.Refinement.{IsIndexed}

secrets_gone :
    (s : LocalStorage) (p : Partition) (c kind : ℕ)
    → kind ≤ 2
    → bytes_of (lookup (without_secrets s p c).secret_rows ((p, c), kind)) ≡ none
secrets_gone s p c kind le = ground (
  arith,
  le,
  lookup-delete s.secret_rows ((p, c), 0) ((p, c), kind),
  lookup-delete (delete s.secret_rows ((p, c), 0)) ((p, c), 1) ((p, c), kind),
  lookup-delete (delete (delete s.secret_rows ((p, c), 0)) ((p, c), 1)) ((p, c), 2) ((p, c), kind),
  eq_iff p.0 p.0,
  eq_iff p.1 p.1,
)

secrets_kept :
    (s : LocalStorage) (p : Partition) (c c' kind : ℕ)
    → c ≢ c'
    → bytes_of (lookup (without_secrets s p c).secret_rows ((p, c'), kind))
      ≡ bytes_of (lookup s.secret_rows ((p, c'), kind))
secrets_kept s p c c' kind apart = ground (
  arith,
  apart,
  lookup-delete s.secret_rows ((p, c), 0) ((p, c'), kind),
  lookup-delete (delete s.secret_rows ((p, c), 0)) ((p, c), 1) ((p, c'), kind),
  lookup-delete (delete (delete s.secret_rows ((p, c), 0)) ((p, c), 1)) ((p, c), 2) ((p, c'), kind),
)

-- Where the rows of the shares and their indexes agree, a successful `forgetHelperChannel` leaves no
-- row, no index entry, no secret of the kinds 0 to 2, no share and no link of the channel; and they
-- agree again.
pub forget_helper_channel-traces :
    (b : Browser) (s : LocalStorage) (p : Partition) (c : ℕ) (s' : LocalStorage)
    → IsIndexed s p
    → forget_helper_channel b s p c ≡ done s' tt
    → IsIndexed s' p
      × (row_at s'.helper_rows p c ≡ none)
      × (includes (helper_ids s' p) c ≡ false)
      × ((kind : ℕ) → kind ≤ 2 → load_secret s' p c kind ≡ none)
      × ((v : ℕ) → read_share s' p c v ≡ none)
      × (includes (channels_with_shares s' p) c ≡ false)
      × ((x : ℕ)
          → (includes (peers (link_table s' p) x) c || includes (peers (link_table s' p) c) x)
            ≡ false)
unfolding row_at load_secret read_share
forget_helper_channel-traces b s p c s' ok h =
    let (rows, secrets, data_left, versions_left, helpers_left, channels_left, links_left) =
      forget_helper_channel-done b s p c s' h in
    (
      record {
        listed_versions = λ c' v bytes g.
            ground (arith, g, data_left c' v, versions_left c', ok.listed_versions c' v bytes);
        listed_channels = λ c' v g.
            ground (arith, g, versions_left c', channels_left c', ok.listed_channels c' v);
      },
      rw rows (
          ground
            (arith, lookup-delete s.helper_rows (p, c) (p, c), eq_iff p.0 p.0, eq_iff p.1 p.1)),
      ground (arith, helpers_left c),
      λ kind le. rw secrets (secrets_gone s p c kind le),
      λ v. elim (Option-cases (lookup s.share_data ((p, c), v))) [
        | inl gone ↦ ground (arith, gone, data_left c v)
        | inr (bytes, there) ↦
            ground (arith, there, data_left c v, ok.listed_versions c v bytes there)
      ],
      ground (arith, channels_left c),
      λ x. ground (arith, links_left x c, links_left c x),
    )

-- A successful `forgetHelperChannel` leaves the row, the secrets, the stored shares and their index,
-- and the links among them, of every other channel of the secret.
pub forget_helper_channel-others :
    (b : Browser) (s : LocalStorage) (p : Partition) (c c' : ℕ) (s' : LocalStorage)
    → c ≢ c'
    → forget_helper_channel b s p c ≡ done s' tt
    → (row_at s'.helper_rows p c' ≡ row_at s.helper_rows p c')
      × (includes (helper_ids s' p) c' ≡ includes (helper_ids s p) c')
      × ((kind : ℕ) → load_secret s' p c' kind ≡ load_secret s p c' kind)
      × ((v : ℕ) → load_raw_share s' p c' v ≡ load_raw_share s p c' v)
      × (versions_for s' p c' ≡ versions_for s p c')
      × ((x : ℕ)
          → x ≢ c
          → includes (peers (link_table s' p) c') x ≡ includes (peers (link_table s p) c') x)
unfolding row_at load_secret load_raw_share
forget_helper_channel-others b s p c c' s' apart h =
    let (rows, secrets, data_left, versions_left, helpers_left, channels_left, links_left) =
      forget_helper_channel-done b s p c s' h in
    (
      rw rows (
          ground (
            arith,
            apart,
            lookup-delete s.helper_rows (p, c) (p, c'),
            eq_iff p.0 p.0,
            eq_iff p.1 p.1,
          )),
      ground (arith, apart, helpers_left c'),
      λ kind. rw secrets (secrets_kept s p c c' kind apart),
      λ v. ground (arith, apart, data_left c' v),
      ground (arith, apart, versions_left c'),
      λ x other. ground (arith, apart, other, links_left c' x),
    )
