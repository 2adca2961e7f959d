-- ===== src/Roster/Settled.antt =====
-- What closing a round leaves on the rows.
use reference_app.Bag.{held_share_count}
use reference_app.Prelude.{
  Bool-cases, List, Option, [], any, arith, false, inl, inr, map, refl, ℕ, ◌∷◌, ◌≡◌,
}
use reference_app.Roster.{awaits_version, settle_row, settle_share, settle_unanswered_shares}
use reference_app.Types.{PairedParticipant, SecretShareRef}

settle_share-answers :
    (version : ℕ) (shares : List SecretShareRef)
    → any (awaits_version version) (map (settle_share version) shares) ≡ false
settle_share-answers version [] = refl
settle_share-answers version (s ∷ shares) = ground (arith, settle_share-answers version shares)

confirmed-settle_share :
    (version : ℕ) (committed : Option (List ℕ)) (shares : List SecretShareRef)
    → held_share_count (map (settle_share version) shares) committed
      ≡ held_share_count shares committed
unfolding held_share_count
confirmed-settle_share version committed [] = refl
confirmed-settle_share version committed (s ∷ shares) =
    ground (arith, confirmed-settle_share version committed shares)

-- what closing the round of a version leaves of a row
abbrev pub IsSettled : ℕ → PairedParticipant → PairedParticipant → Type 0
IsSettled version before after =
    (any (awaits_version version) after.secret_shares ≡ false)
    × (after.id ≡ before.id)
    × (after.channel_id ≡ before.channel_id)
    × ((committed : Option (List ℕ))
        → held_share_count after.secret_shares committed
          ≡ held_share_count before.secret_shares committed)

settle_row-IsSettled :
    (version : ℕ) (p : PairedParticipant) → IsSettled version p (settle_row version p)
settle_row-IsSettled version p = elim (Bool-cases (any (awaits_version version) p.secret_shares)) [
  | inl waits ↦ rw waits (
    settle_share-answers version p.secret_shares,
    refl,
    refl,
    λ c. confirmed-settle_share version c p.secret_shares,
  )
  | inr answered ↦ rw answered (answered, refl, refl, λ c. refl)
]

-- the rows of two lists, one by one
abbrev pub AllSettled : ℕ → List PairedParticipant → List PairedParticipant → Type 0
AllSettled version [] [] = Unit
AllSettled version (p ∷ ps) (q ∷ qs) = IsSettled version p q × AllSettled version ps qs
AllSettled version _ _ = ⊥

-- Once a round is closed, every row of the roster is still there, in its place, with its id and its
-- channel; none waits on a share of that version any more, and each holds as many confirmed shares as
-- before.
pub settle_unanswered_shares-AllSettled :
    (ps : List PairedParticipant) (version : ℕ)
    → AllSettled version ps (settle_unanswered_shares ps version)
unfolding settle_unanswered_shares
settle_unanswered_shares-AllSettled [] version = tt
settle_unanswered_shares-AllSettled (p ∷ ps) version =
    (settle_row-IsSettled version p, settle_unanswered_shares-AllSettled ps version)
