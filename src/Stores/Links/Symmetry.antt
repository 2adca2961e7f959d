-- ===== src/Stores/Links/Symmetry.antt =====
-- What `linkChannel` does to the table of links.
use reference_app.Inbound.{sides}
use reference_app.Prelude.{
  Bool, Option-cases, [], any-append, ap, arith, eq_iff, includes, inl, inr, insert, lookup,
  lookup-insert, nat_eq, option_eq, or_else, pair_eq, string_eq, ℕ, ◌&&◌, ◌++◌, ◌==◌, ◌||◌, ◌∙◌,
  ◌∷◌, ◌≡◌, ◌≢◌,
}
use reference_app.Stores.{Browser, LocalStorage, Partition, done}
use reference_app.Stores.Links.{
  LinkTable, link_channel, link_table, linked, peers, with_entry, with_peer,
}
use reference_app.Stores.Writes.{store_item-done}

abbrev pub joins : ℕ → ℕ → ℕ → ℕ → Bool
joins a b x y = x == a && y == b || x == b && y == a

peers-with_entry : (links : LinkTable) (a x : ℕ) → peers (with_entry links a) x ≡ peers links x
unfolding peers
peers-with_entry links a x = elim (Option-cases (lookup links a)) [
  | inl gone ↦ ground (arith, gone, lookup-insert links a [] x)
  | inr (xs, there) ↦ ground (arith, there)
]

includes-with_peer :
    (links : LinkTable) (a b x y : ℕ)
    → includes (peers (with_peer links a b) x) y
      ≡ (includes (peers links x) y || (x == a && y == b))
unfolding peers
includes-with_peer links a b x y = ground (
  arith,
  lookup-insert links a (or_else (lookup links a) [] ++ b ∷ []) x,
  any-append (λ z. z == y) (or_else (lookup links a) []) (b ∷ []),
)

includes-linked :
    (links : LinkTable) (a b x y : ℕ)
    → includes (peers (linked links a b) x) y ≡ (includes (peers links x) y || joins a b x y)
unfolding linked
includes-linked links a b x y =
    let entered = with_entry (with_entry links a) b in
    ground (
      arith,
      includes-with_peer (with_peer entered a b) b a x y,
      includes-with_peer entered a b x y,
      peers-with_entry (with_entry links a) b x,
      peers-with_entry links a x,
    )

-- Where each link is there from both sides, `linkChannel` leaves it so; where it is done, two
-- different channels are linked, and no other link of the secret comes or goes.
pub link_channel-links :
    (b : Browser) (s : LocalStorage) (p : Partition) (one two : ℕ) (s' : LocalStorage)
    → one ≢ two
    → ((x y : ℕ) → includes (peers (link_table s p) x) y ≡ includes (peers (link_table s p) y) x)
    → link_channel b s p one two ≡ done s' tt
    → ((x y : ℕ)
        → includes (peers (link_table s' p) x) y
          ≡ (includes (peers (link_table s p) x) y || joins one two x y))
      × ((x y : ℕ)
          → includes (peers (link_table s' p) x) y ≡ includes (peers (link_table s' p) y) x)
unfolding link_channel link_table
link_channel-links b s p one two s' apart sides h =
    let table = linked (link_table s p) one two in
    let e : s' ≡ record s { channel_links = insert s.channel_links p table } = ground (
      arith,
      h,
      apart,
      store_item-done b s (record s { channel_links = insert s.channel_links p table }) s',
    ) in
    let same : link_table s' p ≡ table =
      rw e
        (ground (arith, lookup-insert s.channel_links p table p, eq_iff p.0 p.0, eq_iff p.1 p.1)) in
    (
      λ x y. ap (λ t. includes (peers t x) y) same ∙ includes-linked (link_table s p) one two x y,
      λ x y. rw same (
          ground (
            arith,
            sides x y,
            includes-linked (link_table s p) one two x y,
            includes-linked (link_table s p) one two y x,
          )),
    )
