-- ===== src/Stores/Links/Closure.antt =====
-- The loop of `linkedChannels` against walks over the table of links.
use reference_app.Prelude.{
  Bool-cases, List, [], any-append, arith, false, if◌then◌else◌, includes, includes-filter, inl,
  inr, length, length-append, length-filter-le, lookup, nat_eq, not, option_eq, pair_eq, refl, some,
  string_eq, suc, true, zero, ℕ, ◌++◌, ◌+◌, ◌==◌, ◌||◌, ◌↔◌, ◌∷◌, ◌≡◌, ◌≤◌,
}
use reference_app.Stores.{LocalStorage, Partition}
use reference_app.Stores.Links.{
  LinkTable, collect, entry_count, link_fuel, link_table, linked_channels, peers, unvisited,
}

-- the channels that a walk over the links gets to
pub data Reach (links : LinkTable) (a : ℕ) : ℕ → Type 0 where
  at_start : Reach links a a
  further : {x y : ℕ} → Reach links a x → includes (peers links x) y ≡ true → Reach links a y

-- the peers that the channels not visited yet have
abbrev unseen : List ℕ → LinkTable → ℕ
unseen visited [] = 0
unseen visited ((a, xs) ∷ links) =
    (if includes visited a then 0 else length xs) + unseen visited links

unseen-le : (links : LinkTable) → unseen [] links ≤ entry_count links
unseen-le [] = omega arith
unseen-le ((a, xs) ∷ links) = ground (arith, unseen-le links)

unseen-grows :
    (visited : List ℕ) (c : ℕ) (links : LinkTable)
    → unseen (visited ++ c ∷ []) links ≤ unseen visited links
unseen-grows visited c [] = omega arith
unseen-grows visited c ((a, xs) ∷ links) =
    ground (arith, unseen-grows visited c links, any-append (λ x. x == a) visited (c ∷ []))

unseen-visit :
    (visited : List ℕ) (c : ℕ) (links : LinkTable)
    → includes visited c ≡ false
    → length (peers links c) + unseen (visited ++ c ∷ []) links ≤ unseen visited links
unfolding peers lookup
unseen-visit visited c [] h = omega arith
unseen-visit visited c ((a, xs) ∷ links) h = ground (
  arith,
  unseen-visit visited c links h,
  unseen-grows visited c links,
  any-append (λ x. x == a) visited (c ∷ []),
)

collect-enough :
    (fuel : ℕ) (links : LinkTable) (visited queue : List ℕ)
    → length queue + unseen visited links ≤ fuel
    → (r : List ℕ) × (collect fuel links visited queue ≡ some r)
unfolding collect
collect-enough fuel links visited [] le = (visited, refl)
collect-enough zero links visited (c ∷ queue) le = absurd (omega (arith, le))
collect-enough (suc fuel) links visited (c ∷ queue) le = elim (Bool-cases (includes visited c)) [
  | inl met ↦
      let (r, e) = collect-enough fuel links visited queue (omega (arith, le)) in (r, rw met e)
  | inr new ↦
      let grown = visited ++ c ∷ [] in
      let more = unvisited grown (peers links c) in
      let (r, e) = collect-enough fuel links grown (queue ++ more) (
        omega (
          arith,
          le,
          length-append queue more,
          length-filter-le (λ x. not (includes grown x)) (peers links c),
          unseen-visit visited c links new,
        )) in
      (r, rw new e)
]

-- every peer of a visited channel is visited or waits in the queue
record IsCovered (links : LinkTable) (visited queue : List ℕ) : Type 0 where
  covered :
      (x y : ℕ)
      → includes visited x ≡ true
      → includes (peers links x) y ≡ true
      → (includes visited y || includes queue y) ≡ true

IsCovered-met :
    (links : LinkTable) (visited queue : List ℕ) (c : ℕ)
    → includes visited c ≡ true
    → IsCovered links visited (c ∷ queue)
    → IsCovered links visited queue
IsCovered-met links visited queue c met inv = record {
  covered = λ x y hx hy. ground (arith, met, inv.covered x y hx hy);
}

IsCovered-new :
    (links : LinkTable) (visited queue : List ℕ) (c : ℕ)
    → IsCovered links visited (c ∷ queue)
    → IsCovered links (visited ++ c ∷ []) (queue ++ unvisited (visited ++ c ∷ []) (peers links c))
IsCovered-new links visited queue c inv =
    let grown = visited ++ c ∷ [] in
    let more = unvisited grown (peers links c) in
    record {
      covered = λ x y hx hy. ground (
        arith,
        hx,
        hy,
        inv.covered x y,
        any-append (λ z. z == x) visited (c ∷ []),
        any-append (λ z. z == y) visited (c ∷ []),
        any-append (λ z. z == y) queue more,
        includes-filter y (λ z. not (includes grown z)) (peers links c),
      );
    }

-- the result has the visited and the queued channels, and the peers of all it has
collect-closed :
    (fuel : ℕ) (links : LinkTable) (visited queue r : List ℕ)
    → IsCovered links visited queue
    → collect fuel links visited queue ≡ some r
    → ((x : ℕ) → (includes visited x || includes queue x) ≡ true → includes r x ≡ true)
      × IsCovered links r []
unfolding collect
collect-closed fuel links visited [] r inv h =
    let e : visited ≡ r = ground (arith, h) in rw (← e) (λ x hx. ground (arith, hx), inv)
collect-closed zero links visited (c ∷ queue) r inv h = absurd (cc)
collect-closed (suc fuel) links visited (c ∷ queue) r inv h =
    elim (Bool-cases (includes visited c)) [
      | inl met ↦
          let (has_all, closed) =
            collect-closed fuel links visited queue r (IsCovered-met links visited queue c met inv)
              (ground (arith, h, met)) in
          (λ x hx. ground (arith, hx, met, has_all x), closed)
      | inr new ↦
          let grown = visited ++ c ∷ [] in
          let more = unvisited grown (peers links c) in
          let (has_all, closed) =
            collect-closed fuel links grown (queue ++ more) r
              (IsCovered-new links visited queue c inv) (ground (arith, h, new)) in
          (
            λ x hx. ground (
              arith,
              hx,
              has_all x,
              any-append (λ z. z == x) visited (c ∷ []),
              any-append (λ z. z == x) queue more,
            ),
            closed,
          )
    ]

-- the result has only what a walk gets to
collect-reached :
    (a fuel : ℕ) (links : LinkTable) (visited queue r : List ℕ)
    → ((x : ℕ) → (includes visited x || includes queue x) ≡ true → Reach links a x)
    → collect fuel links visited queue ≡ some r
    → (x : ℕ) → includes r x ≡ true
    → Reach links a x
unfolding collect
collect-reached a fuel links visited [] r inv h x hx =
    let e : visited ≡ r = ground (arith, h) in inv x (ground (arith, hx, e))
collect-reached a zero links visited (c ∷ queue) r inv h x hx = absurd (cc)
collect-reached a (suc fuel) links visited (c ∷ queue) r inv h x hx =
    elim (Bool-cases (includes visited c)) [
      | inl met ↦
          collect-reached a fuel links visited queue r (λ y hy. inv y (ground (arith, hy)))
            (ground (arith, h, met)) x hx
      | inr new ↦
          let grown = visited ++ c ∷ [] in
          let more = unvisited grown (peers links c) in
          collect-reached a fuel links grown (queue ++ more) r
            (λ y hy. elim (Bool-cases (includes (peers links c) y)) [
              | inl peer ↦ further (inv c (ground arith)) peer
              | inr other ↦ inv y (
                  ground (
                    arith,
                    hy,
                    other,
                    any-append (λ z. z == y) visited (c ∷ []),
                    any-append (λ z. z == y) queue more,
                    includes-filter y (λ z. not (includes grown z)) (peers links c),
                  ))
            ])
            (ground (arith, h, new)) x hx
    ]

Reach-closed :
    (links : LinkTable) (a : ℕ) (r : List ℕ)
    → includes r a ≡ true
    → IsCovered links r []
    → (x : ℕ) → Reach links a x
    → includes r x ≡ true
Reach-closed links a r start closed _ at_start = start
Reach-closed links a r start closed y (further {x} walk peer) =
    ground (arith, closed.covered x y (Reach-closed links a r start closed x walk) peer)

-- `linkedChannels` always ends, and answers with exactly the channels that a walk over the links
-- gets to from the one it is asked about, that one included.
pub linked_channels-Reach :
    (s : LocalStorage) (p : Partition) (a : ℕ)
    → (r : List ℕ) × (linked_channels s p a ≡ some r)
      × ((x : ℕ) → (includes r x ≡ true) ↔ Reach (link_table s p) a x)
unfolding linked_channels
linked_channels-Reach s p a =
    let links = link_table s p in
    let (r, e) =
      collect-enough (link_fuel links) links [] (a ∷ []) (omega (arith, unseen-le links)) in
    let (has_all, closed) =
      collect-closed (link_fuel links) links [] (a ∷ []) r
        (record { covered = λ x y hx hy. absurd (cc) }) e in
    (
      r,
      e,
      λ x. (
        λ hx.
            collect-reached a (link_fuel links) links [] (a ∷ []) r
              (λ y hy. let same : a ≡ y = ground (arith, hy) in rw (← same) at_start) e x hx,
        λ walk. Reach-closed links a r (has_all a (ground arith)) closed x walk,
      ),
    )
