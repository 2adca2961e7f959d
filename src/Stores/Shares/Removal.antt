-- ===== src/Stores/Shares/Removal.antt =====
-- What `removeChannel` and `removeVersions` leave in the two indexes.
use reference_app.Prelude.{
  Bool-cases, List, [], ap, arith, eq_iff, false, if◌then◌else◌, inl, inr, length, lookup,
  lookup-delete, lookup-insert, ltb, nat_beq, nat_eq, not, option_eq, pair_eq, refl, set_delete,
  string_eq, ℕ, ◌&&◌, ◌==◌, ◌||◌, ◌∙◌, ◌∷◌, ◌≡◌,
}
use reference_app.Stores.{Browser, LocalStorage, Partition, done, load_array}
use reference_app.Stores.Shares.{
  channels_with_shares, drop_channel, drop_versions, remove_channel, remove_shares, versions_for,
  with_channels, with_versions, write_kept,
}
use reference_app.Stores.Shares.Rows.{remove_shares-indexes}
use reference_app.Stores.Writes.{store_item-done}

-- the write that takes a channel out of the index
pub drop_channel-done :
    (b : Browser) (s : LocalStorage) (p : Partition) (c : ℕ) (s' : LocalStorage)
    → drop_channel b s p c ≡ done s' tt
    → (s'.share_data ≡ s.share_data)
      × (s'.share_meta ≡ s.share_meta)
      × (s'.channel_versions ≡ s.channel_versions)
      × (channels_with_shares s' p ≡ set_delete (channels_with_shares s p) c)
unfolding channels_with_shares
drop_channel-done b s p c s' h =
    let e =
      store_item-done b s (with_channels s p (set_delete (channels_with_shares s p) c)) s' h in
    rw e (
      refl,
      refl,
      refl,
      ground (
        arith,
        lookup-insert s.share_channels p (set_delete (channels_with_shares s p) c) p,
        eq_iff p.0 p.0,
        eq_iff p.1 p.1,
      ),
    )

pub versions_for-drop_versions :
    (s : LocalStorage) (p : Partition) (c c' : ℕ)
    → versions_for (drop_versions s p c) p c' ≡ (if c == c' then [] else versions_for s p c')
unfolding versions_for
versions_for-drop_versions s p c c' =
    ground (arith, lookup-delete s.channel_versions (p, c) (p, c'), eq_iff p.0 p.0, eq_iff p.1 p.1)

-- A successful `removeChannel` leaves no row that the channel's index lists, no index for the
-- channel, and the channel out of the index of channels.
pub remove_channel-done :
    (b : Browser) (s : LocalStorage) (p : Partition) (c : ℕ) (s' : LocalStorage)
    → remove_channel b s p c ≡ done s' tt
    → (s'.share_data ≡ (remove_shares s p c (versions_for s p c)).share_data)
      × (s'.share_meta ≡ (remove_shares s p c (versions_for s p c)).share_meta)
      × ((c' : ℕ) → versions_for s' p c' ≡ (if c == c' then [] else versions_for s p c'))
      × (channels_with_shares s' p ≡ set_delete (channels_with_shares s p) c)
unfolding remove_channel versions_for channels_with_shares
remove_channel-done b s p c s' h =
    let rest = remove_shares s p c (versions_for s p c) in
    let (vs, cs) = remove_shares-indexes p c (versions_for s p c) s in
    let (d, m, v, k) = drop_channel-done b (drop_versions rest p c) p c s' h in
    (
      d,
      m,
      λ c'.
          ap (λ x. load_array (lookup x (p, c'))) v
          ∙ versions_for-drop_versions rest p c c'
          ∙ ap (λ x. if c == c' then [] else load_array (lookup x (p, c'))) vs,
      k ∙ ap (λ x. set_delete (load_array (lookup x p)) c) cs,
    )

empty_of_length : (xs : List ℕ) → ltb 0 (length xs) ≡ false → xs ≡ []
empty_of_length [] h = refl
empty_of_length (x ∷ xs) h = absurd (ground arith)

-- the index that is left when some versions are gone
pub write_kept-done :
    (b : Browser) (s : LocalStorage) (p : Partition) (c : ℕ) (kept : List ℕ) (s' : LocalStorage)
    → write_kept b s p c (versions_for s p c) kept ≡ done s' tt
    → (s'.share_data ≡ s.share_data)
      × (s'.share_meta ≡ s.share_meta)
      × ((c' : ℕ)
          → versions_for s' p c' ≡ (
              if c == c' && not (nat_beq (length kept) (length (versions_for s p c)))
              then kept
              else versions_for s p c'))
      × (channels_with_shares s' p ≡ (
          if nat_beq (length kept) (length (versions_for s p c)) || ltb 0 (length kept)
          then channels_with_shares s p
          else set_delete (channels_with_shares s p) c))
unfolding versions_for channels_with_shares
write_kept-done b s p c kept s' h =
    elim (Bool-cases (nat_beq (length kept) (length (versions_for s p c)))) [
      | inl same ↦
          let e : s' ≡ s = ground (arith, h, same) in
          rw e (refl, refl, λ c'. ground (arith, same), ground (arith, same))
      | inr shorter ↦ elim (Bool-cases (ltb 0 (length kept))) [
        | inl some_left ↦
            let e : s' ≡ with_versions s p c kept =
              ground
                (arith, h, shorter, some_left, store_item-done b s (with_versions s p c kept) s') in
            rw e (
              refl,
              refl,
              λ c'. ground (
                arith,
                shorter,
                lookup-insert s.channel_versions (p, c) kept (p, c'),
                eq_iff p.0 p.0,
                eq_iff p.1 p.1,
              ),
              ground (arith, shorter, some_left),
            )
        | inr none_left ↦
            let nothing : kept ≡ [] = empty_of_length kept none_left in
            let g : drop_channel b (drop_versions s p c) p c ≡ done s' tt =
              ground (arith, h, shorter, none_left) in
            let (d, m, v, k) = drop_channel-done b (drop_versions s p c) p c s' g in
            (
              d,
              m,
              λ c'.
                  ap (λ x. load_array (lookup x (p, c'))) v
                  ∙ versions_for-drop_versions s p c c'
                  ∙ ground (arith, shorter, nothing),
              k ∙ ground (arith, shorter, none_left),
            )
      ]
    ]
