-- ===== src/Stores/Shares/Latest.antt =====
-- `latestVersion` of the share store.
use reference_app.Prelude.{
  Bool-cases, List, Option, Option-cases, [], arith, includes, inl, inr, lookup, ltb, nat_beq,
  nat_eq, none, option_eq, pair_eq, refl, some, string_eq, true, ℕ, ◌∷◌, ◌≡◌, ◌≤◌, ◌⊎◌,
}
use reference_app.Stores.{LocalStorage, Partition}
use reference_app.Stores.Shares.{
  Share, channels_with_shares, greater_of, greatest, latest_in, latest_version, read_share,
  versions_for,
}
use reference_app.Stores.Shares.Refinement.{IsIndexed}

greatest-grows : (a : ℕ) (vs : List ℕ) → (m : ℕ) × (greatest (some a) vs ≡ some m) × (a ≤ m)
greatest-grows a [] = (a, refl, omega arith)
greatest-grows a (v ∷ vs) = elim (Bool-cases (ltb a v)) [
  | inl more ↦ let (m, e, le) = greatest-grows v vs in (m, rw more e, ground (arith, more, le))
  | inr less ↦ let (m, e, le) = greatest-grows a vs in (m, rw less e, le)
]

greatest-above :
    (best : Option ℕ) (vs : List ℕ) (v : ℕ)
    → includes vs v ≡ true
    → (m : ℕ) × (greatest best vs ≡ some m) × (v ≤ m)
greatest-above best [] v h = absurd (cc)
greatest-above none (w ∷ vs) v h = elim (Bool-cases (nat_beq w v)) [
  | inl same ↦ let (m, e, le) = greatest-grows w vs in (m, e, ground (arith, same, le))
  | inr other ↦ greatest-above (some w) vs v (ground (arith, other, h))
]
greatest-above (some a) (w ∷ vs) v h = elim (Bool-cases (nat_beq w v)) [
  | inl same ↦ elim (Bool-cases (ltb a w)) [
    | inl more ↦ let (m, e, le) = greatest-grows w vs in (m, rw more e, ground (arith, same, le))
    | inr less ↦
        let (m, e, le) = greatest-grows a vs in (m, rw less e, ground (arith, same, less, le))
  ]
  | inr other ↦ greatest-above (greater_of (some a) w) vs v (ground (arith, other, h))
]

latest_in-grows :
    (s : LocalStorage) (p : Partition) (a : ℕ) (cs : List ℕ)
    → (m : ℕ) × (latest_in s p (some a) cs ≡ some m) × (a ≤ m)
latest_in-grows s p a [] = (a, refl, omega arith)
latest_in-grows s p a (c ∷ cs) =
    let (m1, e1, le1) = greatest-grows a (versions_for s p c) in
    let (m, e, le) = latest_in-grows s p m1 cs in (m, rw e1 e, omega (arith, le1, le))

latest_in-above :
    (s : LocalStorage) (p : Partition) (best : Option ℕ) (cs : List ℕ) (c v : ℕ)
    → includes cs c ≡ true
    → includes (versions_for s p c) v ≡ true
    → (m : ℕ) × (latest_in s p best cs ≡ some m) × (v ≤ m)
latest_in-above s p best [] c v h there = absurd (cc)
latest_in-above s p best (c' ∷ cs) c v h there = elim (Bool-cases (nat_beq c' c)) [
  | inl same ↦
      let e0 : c' ≡ c = ground (arith, same) in
      let (m1, e1, le1) = greatest-above best (versions_for s p c') v (rw e0 there) in
      let (m, e, le) = latest_in-grows s p m1 cs in (m, rw e1 e, omega (arith, le1, le))
  | inr other ↦
      latest_in-above s p (greatest best (versions_for s p c')) cs c v (ground (arith, other, h))
        there
]

-- Where the rows and the indexes of a partition agree, `latestVersion` finds a version if any share
-- can be read, and no share that can be read is of a later version.
pub latest_version-above :
    (s : LocalStorage) (p : Partition) (c v : ℕ) (share : Share)
    → IsIndexed s p
    → read_share s p c v ≡ some share
    → (m : ℕ) × (latest_version s p ≡ some m) × (v ≤ m)
unfolding latest_version read_share
latest_version-above s p c v share ok h = elim (Option-cases (lookup s.share_data ((p, c), v))) [
  | inl gone ↦ absurd (ground (arith, h, gone))
  | inr (bytes, there) ↦
      let listed = ok.listed_versions c v bytes there in
      latest_in-above s p none (channels_with_shares s p) c v (ok.listed_channels c v listed) listed
]

greatest-from :
    (best : Option ℕ) (vs : List ℕ) (m : ℕ)
    → greatest best vs ≡ some m
    → (best ≡ some m) ⊎ (includes vs m ≡ true)
greatest-from best [] m h = inl h
greatest-from none (v ∷ vs) m h = ground (arith, greatest-from (some v) vs m h)
greatest-from (some a) (v ∷ vs) m h = elim (Bool-cases (ltb a v)) [
  | inl more ↦ ground (arith, more, greatest-from (some v) vs m, h)
  | inr less ↦ ground (arith, less, greatest-from (some a) vs m, h)
]

latest_in-from :
    (s : LocalStorage) (p : Partition) (best : Option ℕ) (cs : List ℕ) (m : ℕ)
    → latest_in s p best cs ≡ some m
    → (best ≡ some m)
      ⊎ ((c : ℕ) × (includes cs c ≡ true) × (includes (versions_for s p c) m ≡ true))
latest_in-from s p best [] m h = inl h
latest_in-from s p best (c ∷ cs) m h =
    elim (latest_in-from s p (greatest best (versions_for s p c)) cs m h) [
      | inl here ↦ elim (greatest-from best (versions_for s p c) m here) [
        | inl before ↦ inl before
        | inr there ↦ inr (c, ground arith, there)
      ]
      | inr (c', there, inside) ↦ inr (c', ground (arith, there), inside)
    ]

-- A version that `latestVersion` answers with is listed under a channel that the index lists.
pub latest_version-listed :
    (s : LocalStorage) (p : Partition) (m : ℕ)
    → latest_version s p ≡ some m
    → (c : ℕ) × (includes (channels_with_shares s p) c ≡ true)
      × (includes (versions_for s p c) m ≡ true)
unfolding latest_version
latest_version-listed s p m h = elim (latest_in-from s p none (channels_with_shares s p) m h) [
  | inl impossible ↦ absurd (cc)
  | inr found ↦ found
]
