-- ===== src/Stores/Shares/Rows.antt =====
-- What the calls of the share store leave in its rows and its two indexes.
use reference_app.Prelude.{
  Bool-cases, List, [], ap, arith, delete, eq_iff, if◌then◌else◌, includes, inl, inr, insert,
  lookup, lookup-delete, lookup-insert, nat_eq, none, option_eq, pair_eq, refl, set_add, string_eq,
  ℕ, ◌&&◌, ◌++◌, ◌==◌, ◌∙◌, ◌∷◌, ◌≡◌,
}
use reference_app.Stores.{Browser, LocalStorage, Partition, add_to_index, done, load_array}
use reference_app.Stores.Shares.{
  Share, channels_with_shares, remove_shares, save, versions_for, with_channels, with_data,
  with_meta, with_versions,
}
use reference_app.Stores.Writes.{add_to_index-done, and_then-done, store_item-done}

-- the index of a channel's versions, and of the channels
index_version-done :
    (b : Browser) (s : LocalStorage) (p : Partition) (c v : ℕ) (s' : LocalStorage)
    → add_to_index b s (versions_for s p c) v (with_versions s p c) ≡ done s' tt
    → (s'.share_data ≡ s.share_data)
      × (s'.share_meta ≡ s.share_meta)
      × (s'.share_channels ≡ s.share_channels)
      × ((c' : ℕ)
          → versions_for s' p c'
            ≡ (if c == c' then set_add (versions_for s p c) v else versions_for s p c'))
unfolding versions_for
index_version-done b s p c v s' h =
    let e = add_to_index-done b s (versions_for s p c) v (with_versions s p c) s' h in
    elim (Bool-cases (includes (versions_for s p c) v)) [
      | inl there ↦
          let same : s' ≡ s = ground (arith, e, there) in
          rw same (refl, refl, refl, λ c'. ground (arith, there))
      | inr gone ↦
          let same : s' ≡ with_versions s p c (versions_for s p c ++ v ∷ []) =
            ground (arith, e, gone) in
          rw same (
            refl,
            refl,
            refl,
            λ c'. ground (
              arith,
              gone,
              lookup-insert s.channel_versions (p, c) (versions_for s p c ++ v ∷ []) (p, c'),
              eq_iff p.0 p.0,
              eq_iff p.1 p.1,
            ),
          )
    ]

index_channel-done :
    (b : Browser) (s : LocalStorage) (p : Partition) (c : ℕ) (s' : LocalStorage)
    → add_to_index b s (channels_with_shares s p) c (with_channels s p) ≡ done s' tt
    → (s'.share_data ≡ s.share_data)
      × (s'.share_meta ≡ s.share_meta)
      × (s'.channel_versions ≡ s.channel_versions)
      × (channels_with_shares s' p ≡ set_add (channels_with_shares s p) c)
unfolding channels_with_shares
index_channel-done b s p c s' h =
    let e = add_to_index-done b s (channels_with_shares s p) c (with_channels s p) s' h in
    elim (Bool-cases (includes (channels_with_shares s p) c)) [
      | inl there ↦
          let same : s' ≡ s = ground (arith, e, there) in
          rw same (refl, refl, refl, ground (arith, there))
      | inr gone ↦
          let same : s' ≡ with_channels s p (channels_with_shares s p ++ c ∷ []) =
            ground (arith, e, gone) in
          rw same (
            refl,
            refl,
            refl,
            ground (
              arith,
              gone,
              lookup-insert s.share_channels p (channels_with_shares s p ++ c ∷ []) p,
              eq_iff p.0 p.0,
              eq_iff p.1 p.1,
            ),
          )
    ]

-- A successful `save` writes the two rows of the share, and lists its version and its channel.
pub save-done :
    (b : Browser) (s : LocalStorage) (p : Partition) (c : ℕ) (share : Share) (s' : LocalStorage)
    → save b s p c share ≡ done s' tt
    → (s'.share_data ≡ insert s.share_data ((p, c), share.version) share.bytes)
      × (s'.share_meta ≡ insert s.share_meta ((p, c), share.version) share.secret_id)
      × ((c' : ℕ)
          → versions_for s' p c'
            ≡ (if c == c' then set_add (versions_for s p c) share.version else versions_for s p c'))
      × (channels_with_shares s' p ≡ set_add (channels_with_shares s p) c)
unfolding save versions_for channels_with_shares
save-done b s p c share s' h =
    let (s1, _, w1, h1) = and_then-done _ _ s' tt h in
    let e1 = store_item-done b s (with_data s p c share) s1 w1 in
    let (s2, _, w2, h2) = and_then-done _ _ s' tt h1 in
    let e2 = store_item-done b s1 (with_meta s1 p c share) s2 w2 in
    let (s3, _, w3, h3) = and_then-done _ _ s' tt h2 in
    let (d3, m3, c3, v3) = index_version-done b s2 p c share.version s3 w3 in
    let (d4, m4, v4, c4) = index_channel-done b s3 p c s' h3 in
    let same : s2 ≡ with_meta (with_data s p c share) p c share =
      e2 ∙ ap (λ x. with_meta x p c share) e1 in
    (
      d4 ∙ d3 ∙ ap (λ x. x.share_data) same,
      m4 ∙ m3 ∙ ap (λ x. x.share_meta) same,
      λ c'.
          ap (λ d. load_array (lookup d (p, c'))) v4
          ∙ v3 c'
          ∙ ap
              (λ x.
                if c == c' then set_add (versions_for x p c) share.version else versions_for x p c')
              same,
      c4 ∙ ap (λ d. set_add (load_array (lookup d p)) c) (c3 ∙ ap (λ x. x.share_channels) same),
    )

-- the loop over the rows of some versions
pub remove_shares-rows :
    (s : LocalStorage) (p : Partition) (c : ℕ) (vs : List ℕ) (c' v' : ℕ)
    → (lookup (remove_shares s p c vs).share_data ((p, c'), v')
        ≡ (if c == c' && includes vs v' then none else lookup s.share_data ((p, c'), v')))
      × (lookup (remove_shares s p c vs).share_meta ((p, c'), v')
          ≡ (if c == c' && includes vs v' then none else lookup s.share_meta ((p, c'), v')))
remove_shares-rows s p c [] c' v' = ground arith
remove_shares-rows s p c (v ∷ vs) c' v' =
    let rest = record s {
      share_data = delete s.share_data ((p, c), v);
      share_meta = delete s.share_meta ((p, c), v);
    } in
    ground (
      arith,
      remove_shares-rows rest p c vs c' v',
      lookup-delete s.share_data ((p, c), v) ((p, c'), v'),
      lookup-delete s.share_meta ((p, c), v) ((p, c'), v'),
      eq_iff p.0 p.0,
      eq_iff p.1 p.1,
    )

pub remove_shares-indexes :
    (p : Partition) (c : ℕ) (vs : List ℕ) (s : LocalStorage)
    → ((remove_shares s p c vs).channel_versions ≡ s.channel_versions)
      × ((remove_shares s p c vs).share_channels ≡ s.share_channels)
remove_shares-indexes p c [] s = (refl, refl)
remove_shares-indexes p c (v ∷ vs) s = remove_shares-indexes p c vs (record s {
  share_data = delete s.share_data ((p, c), v);
  share_meta = delete s.share_meta ((p, c), v);
})
