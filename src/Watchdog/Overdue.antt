-- ===== src/Watchdog/Overdue.antt =====
-- What the timer does to the open rounds.
use reference_app.Prelude.{
  Bool, Bool-cases, Dict, List, Option-cases, [], arith, false, if◌then◌else◌, includes, inl, inr,
  length, lookup, lookup-delete, ltb, map, nat_eq, none, option_eq, pair_eq, refl, some, sort,
  sort_insert, string_eq, true, values, ℕ, ◌&&◌, ◌==◌, ◌||◌, ◌∙◌, ◌∷◌, ◌≡◌,
}
use reference_app.Rounds.{
  OpenRound, PendingBag, abandon_round, confirmed_count, oldest_first, pending_rounds,
}
use reference_app.Rounds.Invariant.{IsWellFormed}
use reference_app.Watchdog.{
  Session, SessionContext, commit, fail_sharing_round, on_flow_timeout, settle_all_overdue,
  settle_overdue_round,
}

abbrev pub is_below : Session → ℕ → Bool
is_below s v = ltb (confirmed_count s.rounds v) s.vault.min_participants

settle-lookup :
    (context : SessionContext) (s : Session) (w v : ℕ)
    → lookup (settle_overdue_round context s w).rounds.rounds v
      ≡ (if (w == v) && is_below s v then none else lookup s.rounds.rounds v)
unfolding settle_overdue_round fail_sharing_round commit abandon_round confirmed_count
settle-lookup context s w v =
    elim (Bool-cases (ltb (confirmed_count s.rounds w) s.vault.min_participants)) [
      | inr enough ↦ ground (arith, enough)
      | inl below ↦ elim (Option-cases (lookup s.rounds.rounds w)) [
        | inl gone ↦ ground (arith, below, gone)
        | inr (round, there) ↦ ground (arith, below, there, lookup-delete s.rounds.rounds w v)
      ]
    ]

-- settling one round leaves what the test on another reads
settle-is_below :
    (context : SessionContext) (s : Session) (w v : ℕ)
    → (w == v) ≡ false
    → is_below (settle_overdue_round context s w) v ≡ is_below s v
unfolding settle_overdue_round fail_sharing_round commit abandon_round confirmed_count
settle-is_below context s w v other =
    elim (Bool-cases (ltb (confirmed_count s.rounds w) s.vault.min_participants)) [
      | inr enough ↦ ground (arith, enough)
      | inl below ↦ elim (Option-cases (lookup s.rounds.rounds w)) [
        | inl gone ↦ ground (arith, below, gone)
        | inr (round, there) ↦
            ground (arith, below, there, other, lookup-delete s.rounds.rounds w v)
      ]
    ]

settled-gone :
    (context : SessionContext) (versions : List ℕ) (s : Session) (v : ℕ)
    → lookup s.rounds.rounds v ≡ none
    → lookup (settle_all_overdue context s versions).rounds.rounds v ≡ none
unfolding settle_all_overdue
settled-gone context [] s v gone = gone
settled-gone context (w ∷ versions) s v gone =
    settled-gone context versions (settle_overdue_round context s w) v
      (ground (arith, gone, settle-lookup context s w v))

-- a round above the threshold is settled without a change to the tracker
settled-kept :
    (context : SessionContext) (s : Session) (v : ℕ)
    → is_below s v ≡ false
    → (is_below (settle_overdue_round context s v) v ≡ false)
unfolding settle_overdue_round confirmed_count
settled-kept context s v enough = ground (arith, enough)

settle_all-lookup :
    (context : SessionContext) (versions : List ℕ) (s : Session) (v : ℕ)
    → lookup (settle_all_overdue context s versions).rounds.rounds v
      ≡ (if includes versions v && is_below s v then none else lookup s.rounds.rounds v)
unfolding settle_all_overdue
settle_all-lookup context [] s v = refl
settle_all-lookup context (w ∷ versions) s v =
    let next = settle_overdue_round context s w in
    elim (Bool-cases (w == v)) [
      | inr other ↦
          settle_all-lookup context versions next v
          ∙ ground (arith, other, settle-is_below context s w v other, settle-lookup context s w v)
      | inl same ↦
          let e : w ≡ v = ground (arith, same) in
          elim (Bool-cases (is_below s v)) [
            | inl below ↦
                settled-gone context versions next v
                  (ground (arith, same, below, settle-lookup context s w v))
                ∙ ground (arith, same, below)
            | inr enough ↦
                settle_all-lookup context versions next v
                ∙ ground (
                  arith,
                  same,
                  enough,
                  e,
                  settled-kept context s v enough,
                  settle-lookup context s w v,
                )
          ]
    ]

version_inserted :
    (v : ℕ) (x : PendingBag) (xs : List PendingBag)
    → includes (map (λ p. p.version) (sort_insert oldest_first x xs)) v
      ≡ (x.version == v || includes (map (λ p. p.version) xs) v)
unfolding sort_insert
version_inserted v x [] = refl
version_inserted v x (y ∷ ys) = ground (arith, version_inserted v x ys)

versions_sorted :
    (xs : List PendingBag) (v : ℕ)
    → includes (map (λ p. p.version) (sort oldest_first xs)) v
      ≡ includes (map (λ p. p.version) xs) v
unfolding sort
versions_sorted [] v = refl
versions_sorted (x ∷ xs) v =
    version_inserted v x (sort oldest_first xs) ∙ ground (arith, versions_sorted xs v)

some_left : (xs : List ℕ) (x : ℕ) → includes xs x ≡ true → ltb 0 (length xs) ≡ true
some_left [] x h = cc
some_left (y ∷ xs) x h = ground arith

version_listed :
    (rounds : Dict ℕ OpenRound) (v : ℕ) (round : OpenRound)
    → lookup rounds v ≡ some round
    → round.pending.version ≡ v
    → includes (map (λ p. p.version) (map (λ r. r.pending) (values rounds))) v ≡ true
unfolding lookup
version_listed [] v round h e = cc
version_listed ((k, r) ∷ rounds) v round h e = ground (arith, h, e, version_listed rounds v round)

-- Where each round of the tracker stands under its own version, the timer rolls back exactly the open
-- rounds that fewer participants confirmed than the vault asks for; every other one stays open as it
-- is, to be committed when the library closes it.
pub on_flow_timeout-rounds :
    (context : SessionContext) (s : Session) (v : ℕ) (round : OpenRound)
    → IsWellFormed s.rounds
    → lookup s.rounds.rounds v ≡ some round
    → lookup (on_flow_timeout context s).rounds.rounds v
      ≡ (if is_below s v then none else some round)
unfolding on_flow_timeout pending_rounds
on_flow_timeout-rounds context s v round ok there =
    let expired_now : Session = record s { armed_for = none } in
    let versions = map (λ p. p.version) (pending_rounds s.rounds) in
    let member : includes versions v ≡ true =
      versions_sorted (map (λ r. r.pending) (values s.rounds.rounds)) v
      ∙ version_listed s.rounds.rounds v round there (ok.keyed v round there) in
    let some_open : ltb 0 (length versions) ≡ true = some_left versions v member in
    rw (on_flow_timeout, some_open)
      (settle_all-lookup context versions expired_now v ∙ ground (arith, member, there))
