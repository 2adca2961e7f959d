-- ===== src/Fold/Verdicts.antt =====
-- When a round's bag is committed: the answers of its helpers, and the verdict that the protocol
-- reports when the round closes.
use reference_app.Bag.{commit_into, commit_round_version}
use reference_app.Fold.Context.{FoldState}
use reference_app.Fold.Sharing.{
  commit_once_helpers_answered, commit_staged, round_closed, sharing_complete,
}
use reference_app.Inbound.{held}
use reference_app.Prelude.{
  Bool, Bool-cases, List, Option, Option-cases, String, [], all, arith, eq_iff, false, includes,
  inl, inr, length, lookup, lookup-delete, ltb, nat_eq, none, option_eq, or_else, pair_eq, refl,
  some, string_eq, true, ℕ, ◌∷◌, ◌≡◌, ◌≤◌, ◌⊎◌,
}
use reference_app.Rounds.{
  OpenRound, PendingBag, RoundTracker, complete_round, confirmed_count, empty, helpers_answered,
  pending_round,
}
use reference_app.Rounds.Completion.{complete_round_once}
use reference_app.Rounds.Invariant.{IsWellFormed}
use reference_app.Types.{SecretBag, Vault}

all-includes :
    (kept xs : List String) (c : String)
    → all (includes kept) xs ≡ true
    → (includes xs c ≡ false) ⊎ (includes kept c ≡ true)
all-includes kept [] c h = inl refl
all-includes kept (x ∷ xs) c h = ground (arith, h, eq_iff x c, all-includes kept xs c)

-- The answers of a round commit its bag only when each channel that is still awaited, as one that
-- refused is not, has confirmed, with at least the vault's minimum of confirmations; until then they change nothing. The bag
-- committed is the one that the open round staged, and the round is then open no more.
pub commit_once_helpers_answered-cases :
    (v : Vault) (version : ℕ) (st : FoldState)
    → (commit_once_helpers_answered v version st ≡ (v, st))
      ⊎ ((r : OpenRound) × (lookup st.rounds.rounds version ≡ some r)
          × ((c : String) → (includes r.awaiting c ≡ false) ⊎ (includes r.confirmed c ≡ true))
          × (v.min_participants ≤ length r.pending.bag.current_version.participant_ids)
          × ((commit_once_helpers_answered v version st).0
              ≡ record v { secret_bag = some (commit_round_version v.secret_bag r.pending.bag) })
          × (lookup (commit_once_helpers_answered v version st).1.rounds.rounds version ≡ none))
unfolding commit_once_helpers_answered helpers_answered complete_round confirmed_count
commit_once_helpers_answered-cases v version st =
    elim (Option-cases (lookup st.rounds.rounds version)) [
      | inl closed ↦ inl (rw closed refl)
      | inr (r, found) ↦ elim (Bool-cases (all (includes r.confirmed) r.awaiting)) [
        | inr waits ↦ inl (rw (found, waits) refl)
        | inl answered ↦
            elim (Bool-cases
              (ltb (length r.pending.bag.current_version.participant_ids) v.min_participants)) [
                | inl few ↦ inl (rw (found, answered, few) refl)
                | inr enough ↦ inr (
                  r,
                  found,
                  λ c. all-includes r.confirmed r.awaiting c answered,
                  ground (arith, enough),
                  rw (found, answered, enough) refl,
                  rw (found, answered, enough)
                      (ground (arith, lookup-delete st.rounds.rounds version version)),
                )
              ]
      ]
    ]

-- A round that closes below its threshold leaves the bag as it is.
pub sharing_complete_below :
    (v : Vault) (given : Option ℕ) (st : FoldState)
    → (sharing_complete v given (some false) st).0.secret_bag ≡ v.secret_bag
unfolding sharing_complete
sharing_complete_below v given st =
    elim (Option-cases (complete_round st.rounds (or_else given 1)).0) [
      | inl unstaged ↦ rw unstaged (elim (Option-cases v.secret_bag) [
        | inl empty ↦ rw empty refl
        | inr (bag, held) ↦ rw held refl
      ])
      | inr (staged, found) ↦ rw found refl
    ]

landed-le-commit_round_version :
    (held : Option SecretBag) (staged : SecretBag)
    → staged.current_version.version ≤ (commit_round_version held staged).current_version.version
unfolding commit_round_version commit_into
landed-le-commit_round_version none staged = omega arith
landed-le-commit_round_version (some bag) staged = ground arith

-- a verdict on a version that the bag has caught up with changes nothing
round_closed-caught_up :
    (v : Vault) (version : ℕ) (met : Bool) (bag : SecretBag)
    → v.secret_bag ≡ some bag
    → version ≤ bag.current_version.version
    → round_closed v version met none ≡ v
round_closed-caught_up v version met bag held le = rw held (ground arith)

module _ (v : Vault) (version : ℕ) (st : FoldState)
    (answered : helpers_answered st.rounds version ≡ true)
    (enough : v.min_participants ≤ confirmed_count st.rounds version) where
  commit_once-commits :
      commit_once_helpers_answered v version st
      ≡ commit_staged v version st (complete_round st.rounds version)
  unfolding commit_once_helpers_answered
  commit_once-commits = rw answered (ground arith)

  rounds-commit_once :
      (staged : PendingBag)
      → (complete_round st.rounds version).0 ≡ some staged
      → (commit_once_helpers_answered v version st).1.rounds ≡ (complete_round st.rounds version).1
  rounds-commit_once staged taken = rw (commit_once-commits, taken) refl

  bag-commit_once :
      (staged : PendingBag)
      → (complete_round st.rounds version).0 ≡ some staged
      → (commit_once_helpers_answered v version st).0
        ≡ record v { secret_bag = some (commit_round_version v.secret_bag staged.bag) }
  bag-commit_once staged taken = rw (commit_once-commits, taken) refl

complete_round-pending :
    (t : RoundTracker) (version : ℕ) (staged : PendingBag)
    → pending_round t version ≡ some staged
    → (complete_round t version).0 ≡ some staged
unfolding complete_round pending_round
complete_round-pending t version staged p = ground arith

-- Where the tracker is well-formed, a round is open whose staged bag is at its version or a later
-- one, every helper of it has answered and the confirmations reach the minimum, the verdict
-- that the protocol reports after the answers were taken up, whatever it says, changes nothing more in
-- the record.
pub sharing_complete-commit_once_helpers_answered :
    (v : Vault) (version : ℕ) (met : Option Bool) (staged : PendingBag) (st : FoldState)
    → IsWellFormed st.rounds
    → pending_round st.rounds version ≡ some staged
    → version ≤ staged.bag.current_version.version
    → helpers_answered st.rounds version ≡ true
    → v.min_participants ≤ confirmed_count st.rounds version
    → (sharing_complete
        (commit_once_helpers_answered v version st).0
        (some version)
        met
        (commit_once_helpers_answered v version st).1).0
      ≡ (commit_once_helpers_answered v version st).0
unfolding sharing_complete
sharing_complete-commit_once_helpers_answered v version met staged st w p le answered enough =
    let taken = complete_round-pending st.rounds version staged p in
    rw
      (
        rounds-commit_once v version st answered enough staged taken,
        complete_round_once st.rounds version w,
        bag-commit_once v version st answered enough staged taken,
      )
      (round_closed-caught_up
        (record v { secret_bag = some (commit_round_version v.secret_bag staged.bag) }) version
        (or_else met false) (commit_round_version v.secret_bag staged.bag) refl
        (omega (arith, le, landed-le-commit_round_version v.secret_bag staged.bag)))
