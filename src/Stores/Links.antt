-- ===== src/Stores/Links.antt =====
-- `linkChannel` and `linkedChannels` of apps/web/src/stores.ts. The table of links is an object from
-- a channel to the channels that were linked to it, each once.
pub mod Symmetry
pub mod Closure
use reference_app.Prelude.{
  Dict, List, Option, [], filter, has, if◌then◌else◌, includes, insert, length, lookup, nat_eq,
  none, not, option_eq, or_else, pair_eq, some, string_eq, suc, zero, ℕ, ◌++◌, ◌+◌, ◌==◌, ◌∷◌,
}
use reference_app.Stores.{Browser, LocalStorage, Outcome, Partition, done, store_item}

abbrev pub LinkTable : Type 0
LinkTable = Dict ℕ (List ℕ)

unfoldable pub link_table : LocalStorage → Partition → LinkTable
link_table s p = or_else (lookup s.channel_links p) []

-- `links[a] ?? []`
unfoldable pub peers : LinkTable → ℕ → List ℕ
peers links a = or_else (lookup links a) []

abbrev pub with_entry : LinkTable → ℕ → LinkTable
with_entry links a = if has links a then links else insert links a []

abbrev pub with_peer : LinkTable → ℕ → ℕ → LinkTable
unfolding peers
with_peer links a b =
    if includes (peers links a) b then links else insert links a (peers links a ++ b ∷ [])

unfoldable pub linked : LinkTable → ℕ → ℕ → LinkTable
linked links a b = with_peer (with_peer (with_entry (with_entry links a) b) a b) b a

unfoldable pub link_channel : Browser → LocalStorage → Partition → ℕ → ℕ → Outcome Unit
unfolding store_item link_table linked
link_channel b s p x y =
    if x == y
    then done s tt
    else store_item b s
        (record s { channel_links = insert s.channel_links p (linked (link_table s p) x y) })

-- the peers that the loop puts on the queue
abbrev pub unvisited : List ℕ → List ℕ → List ℕ
unvisited visited xs = filter (λ x. not (includes visited x)) xs

-- The loop of `linkedChannels` on fuel: `none` where it runs out.
unfoldable pub collect : ℕ → LinkTable → List ℕ → List ℕ → Option (List ℕ)
collect fuel links visited [] = some visited
collect zero links visited (current ∷ queue) = none
collect (suc fuel) links visited (current ∷ queue) =
    let met = collect fuel links visited queue in
    let next =
      collect fuel links (visited ++ current ∷ [])
        (queue ++ unvisited (visited ++ current ∷ []) (peers links current)) in
    if includes visited current then met else next

-- the table's entries, which is what the queue may get
abbrev pub entry_count : LinkTable → ℕ
entry_count [] = 0
entry_count ((a, xs) ∷ links) = length xs + entry_count links

abbrev pub link_fuel : LinkTable → ℕ
link_fuel links = entry_count links + 1

unfoldable pub linked_channels : LocalStorage → Partition → ℕ → Option (List ℕ)
unfolding link_table collect
linked_channels s p channel_id =
    let links = link_table s p in collect (link_fuel links) links [] (channel_id ∷ [])
