-- ===== src/Stores/Channels/Forgetting.antt =====
-- What `forgetHelperChannel` leaves.
use reference_app.Prelude.{
  Bool-cases, Dict, List, [], ap, arith, delete, eq_iff, false, if◌then◌else◌, includes,
  includes-set_delete, inl, inr, insert, lookup, lookup-insert, nat_eq, none, not, option_eq,
  or_else, pair_eq, refl, set_delete, some, string_eq, ℕ, ◌&&◌, ◌==◌, ◌∙◌, ◌∷◌, ◌≡◌,
}
use reference_app.Stores.{Browser, LocalStorage, Partition, done, load_array}
use reference_app.Stores.Channels.{
  forget_helper_channel, helper_ids, is_linked, unlink, unlinked, unlist_helper, unlist_shares,
  with_helper_index, without_secrets,
}
use reference_app.Stores.Links.{LinkTable, link_table, peers}
use reference_app.Stores.Shares.{
  channels_with_shares, drop_versions, remove_shares, versions_for, with_channels,
}
use reference_app.Stores.Shares.Removal.{versions_for-drop_versions}
use reference_app.Stores.Shares.Rows.{remove_shares-indexes, remove_shares-rows}
use reference_app.Stores.Writes.{and_then-done, store_item-done}

unlist_helper-done :
    (b : Browser) (s : LocalStorage) (p : Partition) (c : ℕ) (s' : LocalStorage)
    → unlist_helper b s p c ≡ done s' tt
    → (index : Dict Partition (List ℕ)) × (s' ≡ record s { helper_index = index })
      × ((x : ℕ)
          → includes (load_array (lookup index p)) x
            ≡ (includes (helper_ids s p) x && not (x == c)))
unfolding helper_ids
unlist_helper-done b s p c s' h = elim (Bool-cases (includes (helper_ids s p) c)) [
  | inl there ↦
      let left = set_delete (helper_ids s p) c in
      (
        insert s.helper_index p left,
        ground (arith, h, there, store_item-done b s (with_helper_index s p left) s'),
        λ x. ground (
          arith,
          lookup-insert s.helper_index p left p,
          includes-set_delete x (helper_ids s p) c,
          eq_iff p.0 p.0,
          eq_iff p.1 p.1,
        ),
      )
  | inr gone ↦ (
    s.helper_index,
    ground (arith, h, gone),
    λ x. elim (Bool-cases (x == c)) [
      | inl same ↦ let e : x ≡ c = ground (arith, same) in rw e (ground (arith, gone))
      | inr other ↦ ground (arith, other)
    ],
  )
]

unlist_shares-done :
    (b : Browser) (s : LocalStorage) (p : Partition) (c : ℕ) (s' : LocalStorage)
    → unlist_shares b s p c ≡ done s' tt
    → (index : Dict Partition (List ℕ)) × (s'
        ≡ record (drop_versions (remove_shares s p c (versions_for s p c)) p c) {
          share_channels = index;
        })
      × ((x : ℕ)
          → includes (load_array (lookup index p)) x
            ≡ (includes (channels_with_shares s p) x && not (x == c)))
unfolding channels_with_shares
unlist_shares-done b s p c s' h =
    let rest = drop_versions (remove_shares s p c (versions_for s p c)) p c in
    let kept : rest.share_channels ≡ s.share_channels =
      (remove_shares-indexes p c (versions_for s p c) s).1 in
    elim (Bool-cases (includes (channels_with_shares rest p) c)) [
      | inl there ↦
          let left = set_delete (channels_with_shares rest p) c in
          (
            insert rest.share_channels p left,
            ground (arith, h, there, store_item-done b rest (with_channels rest p left) s'),
            λ x. ground (
              arith,
              kept,
              lookup-insert rest.share_channels p left p,
              includes-set_delete x (channels_with_shares rest p) c,
              eq_iff p.0 p.0,
              eq_iff p.1 p.1,
            ),
          )
      | inr gone ↦ (
        rest.share_channels,
        ground (arith, h, gone),
        λ x. elim (Bool-cases (x == c)) [
          | inl same ↦ let e : x ≡ c = ground (arith, same) in rw e (ground (arith, gone, kept))
          | inr other ↦ ground (arith, other, kept)
        ],
      )
    ]

peers-unlinked :
    (links : LinkTable) (c x y : ℕ)
    → includes (peers (unlinked links c) x) y
      ≡ (includes (peers links x) y && (not (x == c) && not (y == c)))
unfolding peers lookup
peers-unlinked [] c x y = refl
peers-unlinked ((a, xs) ∷ links) c x y =
    ground (arith, peers-unlinked links c x y, includes-set_delete y xs c)

peers-not_linked :
    (links : LinkTable) (c x y : ℕ)
    → is_linked links c ≡ false
    → includes (peers links x) y ≡ (includes (peers links x) y && (not (x == c) && not (y == c)))
unfolding peers lookup
peers-not_linked [] c x y h = refl
peers-not_linked ((a, xs) ∷ links) c x y h = ground (arith, h, peers-not_linked links c x y)

unlink-done :
    (b : Browser) (s : LocalStorage) (p : Partition) (c : ℕ) (s' : LocalStorage)
    → unlink b s p c ≡ done s' tt
    → (table : Dict Partition LinkTable) × (s' ≡ record s { channel_links = table })
      × ((x y : ℕ)
          → includes (peers (or_else (lookup table p) []) x) y
            ≡ (includes (peers (link_table s p) x) y && (not (x == c) && not (y == c))))
unfolding link_table
unlink-done b s p c s' h = elim (Bool-cases (is_linked (link_table s p) c)) [
  | inl there ↦
      let table = insert s.channel_links p (unlinked (link_table s p) c) in
      let found : lookup table p ≡ some (unlinked (link_table s p) c) = ground (
        arith,
        lookup-insert s.channel_links p (unlinked (link_table s p) c) p,
        eq_iff p.0 p.0,
        eq_iff p.1 p.1,
      ) in
      (
        table,
        ground (arith, h, there, store_item-done b s (record s { channel_links = table }) s'),
        λ x y. rw found (peers-unlinked (link_table s p) c x y),
      )
  | inr gone ↦ (
    s.channel_links,
    ground (arith, h, gone),
    λ x y. peers-not_linked (link_table s p) c x y gone,
  )
]

remove_shares-others :
    (p : Partition) (c : ℕ) (vs : List ℕ) (s : LocalStorage)
    → ((remove_shares s p c vs).helper_rows ≡ s.helper_rows)
      × ((remove_shares s p c vs).helper_index ≡ s.helper_index)
      × ((remove_shares s p c vs).secret_rows ≡ s.secret_rows)
      × ((remove_shares s p c vs).channel_links ≡ s.channel_links)
remove_shares-others p c [] s = (refl, refl, refl, refl)
remove_shares-others p c (v ∷ vs) s = remove_shares-others p c vs (record s {
  share_data = delete s.share_data ((p, c), v);
  share_meta = delete s.share_meta ((p, c), v);
})

-- the stored rows and indexes of the shares are those of `s1`
shares_like :
    (s s1 : LocalStorage) (p : Partition) (c : ℕ)
    → s1.share_data ≡ s.share_data
    → s1.channel_versions ≡ s.channel_versions
    → ((c' v' : ℕ)
        → lookup (remove_shares s1 p c (versions_for s1 p c)).share_data ((p, c'), v') ≡ (
            if c == c' && includes (versions_for s p c) v'
            then none
            else lookup s.share_data ((p, c'), v')))
      × ((c' : ℕ)
          → versions_for (drop_versions (remove_shares s1 p c (versions_for s1 p c)) p c) p c'
            ≡ (if c == c' then [] else versions_for s p c'))
unfolding versions_for
shares_like s s1 p c d v =
    let stored = versions_for s1 p c in
    (
      λ c' v'.
          (remove_shares-rows s1 p c stored c' v').0
          ∙ ap (λ x. if c == c' && includes stored v' then none else lookup x ((p, c'), v')) d
          ∙ ap
              (λ x.
                if c == c' && includes (load_array (lookup x (p, c))) v'
                then none
                else lookup s.share_data ((p, c'), v'))
              v,
      λ c'.
          versions_for-drop_versions (remove_shares s1 p c stored) p c c'
          ∙ ap (λ x. if c == c' then [] else load_array (lookup x (p, c')))
              ((remove_shares-indexes p c stored s1).0 ∙ v),
    )

-- What a successful `forgetHelperChannel` has written, dictionary by dictionary.
pub forget_helper_channel-done :
    (b : Browser) (s : LocalStorage) (p : Partition) (c : ℕ) (s' : LocalStorage)
    → forget_helper_channel b s p c ≡ done s' tt
    → (s'.helper_rows ≡ delete s.helper_rows (p, c))
      × (s'.secret_rows ≡ (without_secrets s p c).secret_rows)
      × ((c' v' : ℕ)
          → lookup s'.share_data ((p, c'), v') ≡ (
              if c == c' && includes (versions_for s p c) v'
              then none
              else lookup s.share_data ((p, c'), v')))
      × ((c' : ℕ) → versions_for s' p c' ≡ (if c == c' then [] else versions_for s p c'))
      × ((x : ℕ) → includes (helper_ids s' p) x ≡ (includes (helper_ids s p) x && not (x == c)))
      × ((x : ℕ)
          → includes (channels_with_shares s' p) x
            ≡ (includes (channels_with_shares s p) x && not (x == c)))
      × ((x y : ℕ)
          → includes (peers (link_table s' p) x) y
            ≡ (includes (peers (link_table s p) x) y && (not (x == c) && not (y == c))))
unfolding forget_helper_channel helper_ids channels_with_shares link_table versions_for
forget_helper_channel-done b s p c s' h =
    let s0 = record s { helper_rows = delete s.helper_rows (p, c) } in
    let (s1, _, w1, h1) = and_then-done _ _ s' tt h in
    let (helpers, e1, helpers_left) = unlist_helper-done b s0 p c s1 w1 in
    let (s2, _, w2, h2) = and_then-done _ _ s' tt h1 in
    let t1 = without_secrets s1 p c in
    let (channels, e2, channels_left) = unlist_shares-done b t1 p c s2 w2 in
    let (table, e3, links_left) = unlink-done b s2 p c s' h2 in
    let (rows, index, secrets, links) = remove_shares-others p c (versions_for t1 p c) t1 in
    let (data_left, versions_left) =
      shares_like s t1 p c (ap (λ x. x.share_data) e1) (ap (λ x. x.channel_versions) e1) in
    (
      ap (λ x. x.helper_rows) e3 ∙ ap (λ x. x.helper_rows) e2 ∙ rows ∙ ap (λ x. x.helper_rows) e1,
      ap (λ x. x.secret_rows) e3
          ∙ ap (λ x. x.secret_rows) e2
          ∙ secrets
          ∙ ap (λ x. (without_secrets x p c).secret_rows) e1,
      λ c' v'.
          ap (λ x. lookup x.share_data ((p, c'), v')) e3
          ∙ ap (λ x. lookup x.share_data ((p, c'), v')) e2
          ∙ data_left c' v',
      λ c'. ap (λ x. versions_for x p c') e3 ∙ ap (λ x. versions_for x p c') e2 ∙ versions_left c',
      λ x.
          ap (λ d. includes (load_array (lookup d p)) x)
            (ap (λ y. y.helper_index) e3
              ∙ ap (λ y. y.helper_index) e2
              ∙ index
              ∙ ap (λ y. y.helper_index) e1)
          ∙ helpers_left x,
      λ x.
          ap (λ d. includes (load_array (lookup d p)) x)
            (ap (λ y. y.share_channels) e3 ∙ ap (λ y. y.share_channels) e2)
          ∙ channels_left x
          ∙ ap (λ y. includes (channels_with_shares y p) x && not (x == c)) e1,
      λ x y.
          ap (λ d. includes (peers (or_else (lookup d p) []) x) y) (ap (λ z. z.channel_links) e3)
          ∙ links_left x y
          ∙ ap
              (λ d.
                includes (peers (or_else (lookup d p) []) x) y && (not (x == c) && not (y == c)))
              (ap (λ z. z.channel_links) e2 ∙ links ∙ ap (λ z. z.channel_links) e1),
    )
