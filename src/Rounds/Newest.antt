-- ===== src/Rounds/Newest.antt =====
-- `latestSecrets`: a new round publishes the newest bag that this vault has asked for.
use reference_app.Prelude.{
  All, All-weaken, Bool, Bool-cases, Dict, Distinct, List, Option, Option-cases, [], any, ap, arith,
  inl, inr, last?, lookup, map, nat_eq, refl, some, sort, sort_insert, string_eq, true, values, ℕ,
  ◌<◌, ◌==◌, ◌||◌, ◌∙◌, ◌∷◌, ◌≡◌, ◌≤◌, ◌⊎◌,
}
use reference_app.Rounds.{
  OpenRound, PendingBag, RoundTracker, committed_secrets, committed_version, latest_secrets,
  newest_secrets, oldest_first, pending_round,
}
use reference_app.Rounds.Invariant.{IsWellFormed}
use reference_app.Types.{SecretBag}

-- `p` is in the list and every other element has a lower version
abbrev IsNewest : PendingBag → List PendingBag → Type 0
IsNewest p ps =
    All (λ q. (q ≡ p) ⊎ (q.version < p.version)) ps × (any (λ q. q.version == p.version) ps ≡ true)

abbrev Rises : List PendingBag → Type 0
Rises [] = Unit
Rises (p ∷ ps) = All (λ q. p.version ≤ q.version) ps × Rises ps

All-sort_insert {κ} :
    (P : PendingBag → Type κ) (x : PendingBag) (ps : List PendingBag)
    → P x
    → All P ps
    → All P (sort_insert oldest_first x ps)
unfolding sort_insert
All-sort_insert P x [] px h = (px, tt)
All-sort_insert P x (p ∷ ps) px h = ground (arith, All-sort_insert P x ps px h.1)

All-sort {κ} :
    (P : PendingBag → Type κ) (ps : List PendingBag) → All P ps → All P (sort oldest_first ps)
unfolding sort
All-sort P [] h = tt
All-sort P (p ∷ ps) h = All-sort_insert P p (sort oldest_first ps) h.0 (All-sort P ps h.1)

any-sort_insert :
    (f : PendingBag → Bool) (x : PendingBag) (ps : List PendingBag)
    → any f (sort_insert oldest_first x ps) ≡ (f x || any f ps)
unfolding sort_insert
any-sort_insert f x [] = refl
any-sort_insert f x (p ∷ ps) = ground (arith, any-sort_insert f x ps)

any-sort : (f : PendingBag → Bool) (ps : List PendingBag) → any f (sort oldest_first ps) ≡ any f ps
unfolding sort
any-sort f [] = refl
any-sort f (p ∷ ps) =
    any-sort_insert f p (sort oldest_first ps) ∙ ap (λ b. f p || b) (any-sort f ps)

Rises-sort_insert :
    (x : PendingBag) (ps : List PendingBag) → Rises ps → Rises (sort_insert oldest_first x ps)
unfolding sort_insert
Rises-sort_insert x [] r = (tt, tt)
Rises-sort_insert x (p ∷ ps) r = elim (Bool-cases (oldest_first x p)) [
  | inl first ↦ rw first (
    (
      ground arith,
      All-weaken (λ q. p.version ≤ q.version) (λ q. x.version ≤ q.version) ps (λ q h. ground arith)
          r.0,
    ),
    r,
  )
  | inr later ↦ rw later (
    All-sort_insert (λ q. p.version ≤ q.version) x ps (ground arith) r.0,
    Rises-sort_insert x ps r.1,
  )
]

Rises-sort : (ps : List PendingBag) → Rises (sort oldest_first ps)
unfolding sort
Rises-sort [] = tt
Rises-sort (p ∷ ps) = Rises-sort_insert p (sort oldest_first ps) (Rises-sort ps)

last-Rises : (p : PendingBag) (ps : List PendingBag) → Rises ps → IsNewest p ps → last? ps ≡ some p
last-Rises p [] r n = cc
last-Rises p (q ∷ []) r n = ground arith
last-Rises p (q ∷ u ∷ ps) r n = last-Rises p (u ∷ ps) r.1 (n.0.1, ground arith)

sorted-IsNewest :
    (p : PendingBag) (ps : List PendingBag) → IsNewest p ps → last? (sort oldest_first ps) ≡ some p
sorted-IsNewest p ps n =
    last-Rises p (sort oldest_first ps) (Rises-sort ps)
      (All-sort (λ q. (q ≡ p) ⊎ (q.version < p.version)) ps n.0, any-sort _ ps ∙ n.1)

module _ (P : OpenRound → Type 0) where
  All-values :
      (d : Dict ℕ OpenRound)
      → Distinct d
      → ((k : ℕ) (r : OpenRound) → lookup d k ≡ some r → P r)
      → All P (values d)
  unfolding lookup
  All-values [] u h = tt
  All-values ((k, r) ∷ d) u h =
      (h k r (ground arith), All-values d u.1 (λ j s e. h j s (ground (arith, u.0, e))))

any-values :
    (d : Dict ℕ OpenRound) (k : ℕ) (r : OpenRound) (f : OpenRound → Bool)
    → lookup d k ≡ some r
    → f r ≡ true
    → any f (values d) ≡ true
unfolding lookup
any-values [] k r f e h = cc
any-values ((j, s) ∷ d) k r f e h = ground (arith, any-values d k r f)

All-map_pending :
    (P : PendingBag → Type 0) (rs : List OpenRound)
    → All (λ r. P r.pending) rs
    → All P (map (λ r. r.pending) rs)
All-map_pending P [] h = tt
All-map_pending P (r ∷ rs) h = (h.0, All-map_pending P rs h.1)

any-map_pending :
    (f : PendingBag → Bool) (rs : List OpenRound)
    → any f (map (λ r. r.pending) rs) ≡ any (λ r. f r.pending) rs
any-map_pending f [] = refl
any-map_pending f (r ∷ rs) = ap (λ b. f r.pending || b) (any-map_pending f rs)

open_round-IsNewest :
    (t : RoundTracker) (version : ℕ) (round : OpenRound)
    → IsWellFormed t
    → lookup t.rounds version ≡ some round
    → ((w : ℕ) (r : OpenRound) → lookup t.rounds w ≡ some r → w ≤ version)
    → IsNewest round.pending (map (λ r. r.pending) (values t.rounds))
open_round-IsNewest t version round w found top = (
  All-map_pending (λ q. (q ≡ round.pending) ⊎ (q.version < round.pending.version)) (values t.rounds)
      (All-values (λ r. (r.pending ≡ round.pending) ⊎ (r.pending.version < round.pending.version))
        t.rounds w.distinct
        (λ k r e. ground (arith, w.keyed k r e, w.keyed version round found, top k r e))),
  any-map_pending (λ q. q.version == round.pending.version) (values t.rounds)
      ∙ any-values t.rounds version round (λ r. r.pending.version == round.pending.version) found
          (ground arith),
)

-- Where the tracker is well-formed, the round of `version` is open, no open round is newer, and the
-- committed bag is older, a new round publishes the secrets staged for `version`, and not those of
-- the committed bag.
pub latest_secrets_staged :
    (t : RoundTracker) (committed : Option SecretBag) (version : ℕ) (staged : PendingBag)
    → IsWellFormed t
    → pending_round t version ≡ some staged
    → ((w : ℕ) (r : OpenRound) → lookup t.rounds w ≡ some r → w ≤ version)
    → committed_version committed < version
    → latest_secrets t committed ≡ staged.bag.current_version.secrets
unfolding latest_secrets pending_round
latest_secrets_staged t committed version staged w open_at top older =
    elim (Option-cases (lookup t.rounds version)) [
      | inl closed ↦ absurd (ground arith)
      | inr (round, found) ↦
          rw
            (
              sorted-IsNewest round.pending _ (open_round-IsNewest t version round w found top),
              newest_secrets,
            )
            (ground (arith, w.keyed version round found))
    ]

All-last :
    (c : ℕ) (ps : List PendingBag) (p : PendingBag)
    → All (λ q. q.version ≤ c) ps
    → last? ps ≡ some p
    → p.version ≤ c
All-last c [] p h e = cc
All-last c (q ∷ []) p h e = ground arith
All-last c (q ∷ u ∷ ps) p h e = All-last c (u ∷ ps) p h.1 e

-- Where the tracker is well-formed and no open round is newer than the committed bag, a new round
-- publishes the committed secrets.
pub latest_secrets_committed :
    (t : RoundTracker) (committed : Option SecretBag)
    → IsWellFormed t
    → ((w : ℕ) (r : OpenRound) → lookup t.rounds w ≡ some r → w ≤ committed_version committed)
    → latest_secrets t committed ≡ committed_secrets committed
unfolding latest_secrets
latest_secrets_committed t committed w older =
    let c = committed_version committed in
    let bags = map (λ (r : OpenRound). r.pending) (values t.rounds) in
    let low =
      All-sort (λ q. q.version ≤ c) bags
        (All-map_pending (λ q. q.version ≤ c) (values t.rounds)
          (All-values (λ r. r.pending.version ≤ c) t.rounds w.distinct
            (λ k r e. ground (arith, w.keyed k r e, older k r e)))) in
    elim (Option-cases (last? (sort oldest_first bags))) [
      | inl none_open ↦ rw (none_open, newest_secrets)
      | inr (p, found) ↦
          rw (found, newest_secrets)
            (ground (arith, All-last c (sort oldest_first bags) p low found))
    ]
