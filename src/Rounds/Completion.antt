-- ===== src/Rounds/Completion.antt =====
-- Completing and abandoning a round.
use reference_app.Prelude.{
  Option-cases, arith, inl, inr, insert, length, length-insert-le, lookup, lookup-delete,
  lookup-insert, nat_eq, none, refl, some, string_eq, true, ℕ, ◌<◌, ◌≡◌,
}
use reference_app.Rounds.{
  PendingBag, RoundTracker, abandon_round, abandoned_rounds_kept, complete_round, pending_round,
}
use reference_app.Rounds.Abandoned.{trim_small}
use reference_app.Rounds.Invariant.{IsWellFormed}

-- In a well-formed tracker a round is consumed at most once: completing it a second time gives
-- nothing.
pub complete_round_once :
    (t : RoundTracker) (version : ℕ)
    → IsWellFormed t
    → (complete_round (complete_round t version).1 version).0 ≡ none
unfolding complete_round
complete_round_once t version w = elim (Option-cases (lookup t.rounds version)) [
  | inl closed ↦ elim (Option-cases (lookup t.abandoned version)) [
    | inl absent ↦ rw (closed, absent) (rw (closed, absent) refl)
    | inr (late, found) ↦
        rw (closed, found) (ground (arith, closed, lookup-delete t.abandoned version version))
  ]
  | inr (round, found) ↦
      rw found (ground (arith, w.apart version round found, lookup-delete t.rounds version version))
]

-- Giving up on an open round, where fewer than the bound were given up on before, keeps its
-- staged bag: a completion that comes late still gives it, and the round is no longer open.
pub complete_round-abandon_round :
    (t : RoundTracker) (version : ℕ) (staged : PendingBag)
    → pending_round t version ≡ some staged
    → length t.abandoned < abandoned_rounds_kept
    → ((abandon_round t version).0 ≡ true)
      × (pending_round (abandon_round t version).1 version ≡ none)
      × ((complete_round (abandon_round t version).1 version).0 ≡ some staged)
unfolding complete_round abandon_round pending_round
complete_round-abandon_round t version staged h room =
    elim (Option-cases (lookup t.rounds version)) [
      | inl closed ↦ absurd (ground arith)
      | inr (round, found) ↦ rw found (
        ground arith,
        ground (arith, lookup-delete t.rounds version version),
        ground (
          arith,
          lookup-delete t.rounds version version,
          length-insert-le t.abandoned version round.pending,
          trim_small (length (insert t.abandoned version round.pending))
              (insert t.abandoned version round.pending),
          lookup-insert t.abandoned version round.pending version,
        ),
      )
    ]
