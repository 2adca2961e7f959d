-- ===== src/Rounds/Invariant.antt =====
-- What holds of every tracker that the methods can build.
use reference_app.Prelude.{
  Dict, Distinct, Distinct-delete, Distinct-insert, List, Option, Option-cases, String, [], arith,
  if◌then◌else◌, inl, inr, insert, length, length-delete-le, lookup, lookup-delete, lookup-insert,
  nat_eq, none, refl, some, string_eq, ℕ, ◌==◌, ◌∷◌, ◌≡◌, ◌≤◌, ◌⊎◌,
}
use reference_app.Rounds.{
  OpenRound, PendingBag, ProtectRound, RoundTracker, VerificationChallenge, abandon_all,
  abandon_round, abandoned_rounds_kept, begin_protect_round, begin_recovery, complete_round,
  confirm_in, drop_in, drop_share, empty, fail_in, keep_abandoned, modify, opened,
  record_share_confirmed, record_share_failed, take_recovery,
}
use reference_app.Rounds.Abandoned.{length-trim, lookup-trim}
use reference_app.Rounds.Challenges.{
  begin_verification, end_verification, resume_each, resume_one, resume_verifications,
  resumed_challenge,
}
use reference_app.Rounds.Ops.{
  RoundOp, abandons, abandons_all, answers, challenges, completes, confirms, drops, fails, opens,
  perform, perform_all, recovers, resumes, takes,
}
use reference_app.Types.{PendingVerification}

-- No key stands twice in a map; every round stands under its own version; no round is both open and abandoned; at most
-- `abandoned_rounds_kept` abandoned rounds are kept.
pub record IsWellFormed (t : RoundTracker) : Type 0 where
  pub distinct : Distinct t.rounds
  pub challenges_distinct : Distinct t.verifications
  pub keyed : (v : ℕ) (r : OpenRound) → lookup t.rounds v ≡ some r → r.pending.version ≡ v
  pub abandoned_keyed : (v : ℕ) (p : PendingBag) → lookup t.abandoned v ≡ some p → p.version ≡ v
  pub apart : (v : ℕ) (r : OpenRound) → lookup t.rounds v ≡ some r → lookup t.abandoned v ≡ none
  pub bounded : length t.abandoned ≤ abandoned_rounds_kept

pub empty-IsWellFormed : IsWellFormed empty
unfolding lookup
empty-IsWellFormed = record {
  distinct = tt;
  challenges_distinct = tt;
  keyed = λ v r e. cc;
  abandoned_keyed = λ v p e. cc;
  apart = λ v r e. cc;
  bounded = omega arith;
}

begin_protect_round-IsWellFormed :
    (t : RoundTracker) (round : ProtectRound)
    → IsWellFormed t
    → IsWellFormed (begin_protect_round t round)
unfolding begin_protect_round
begin_protect_round-IsWellFormed t round w = record {
  distinct = Distinct-insert t.rounds round.version (opened round) w.distinct;
  challenges_distinct = w.challenges_distinct;
  keyed =
      λ v r e. ground (arith, w.keyed v r, lookup-insert t.rounds round.version (opened round) v);
  abandoned_keyed =
      λ v p e. ground (arith, w.abandoned_keyed v p, lookup-delete t.abandoned round.version v);
  apart = λ v r e. ground (
    arith,
    w.apart v r,
    lookup-insert t.rounds round.version (opened round) v,
    lookup-delete t.abandoned round.version v,
  );
  bounded = omega (arith, length-delete-le t.abandoned round.version, w.bounded);
}

-- a write to an open round that leaves the number of its version alone
modify-IsWellFormed :
    (t : RoundTracker) (version : ℕ) (change : OpenRound → OpenRound) (o : Option OpenRound)
    → lookup t.rounds version ≡ o
    → ((r : OpenRound) → (change r).pending.version ≡ r.pending.version)
    → IsWellFormed t
    → IsWellFormed (modify t version change o)
modify-IsWellFormed t version change none l k w = w
modify-IsWellFormed t version change (some round) l k w = record {
  distinct = Distinct-insert t.rounds version (change round) w.distinct;
  challenges_distinct = w.challenges_distinct;
  keyed = λ v r e. ground (
    arith,
    w.keyed v r,
    w.keyed version round l,
    k round,
    lookup-insert t.rounds version (change round) v,
  );
  abandoned_keyed = w.abandoned_keyed;
  apart = λ v r e. ground (
    arith,
    w.apart v r,
    w.apart version round l,
    lookup-insert t.rounds version (change round) v,
  );
  bounded = w.bounded;
}

pub complete_round-IsWellFormed :
    (t : RoundTracker) (version : ℕ) → IsWellFormed t → IsWellFormed (complete_round t version).1
unfolding complete_round
complete_round-IsWellFormed t version w = elim (Option-cases (lookup t.rounds version)) [
  | inl closed ↦ elim (Option-cases (lookup t.abandoned version)) [
    | inl absent ↦ rw (closed, absent) w
    | inr (late, found) ↦
        rw (closed, found)
          (record {
            distinct = w.distinct;
            challenges_distinct = w.challenges_distinct;
            keyed = w.keyed;
            abandoned_keyed =
                λ v p e. ground (arith, w.abandoned_keyed v p, lookup-delete t.abandoned version v);
            apart = λ v r e. ground (arith, w.apart v r, lookup-delete t.abandoned version v);
            bounded = omega (arith, length-delete-le t.abandoned version, w.bounded);
          })
  ]
  | inr (round, found) ↦ rw found (record {
    distinct = Distinct-delete t.rounds version w.distinct;
    challenges_distinct = w.challenges_distinct;
    keyed = λ v r e. ground (arith, w.keyed v r, lookup-delete t.rounds version v);
    abandoned_keyed = w.abandoned_keyed;
    apart = λ v r e. ground (arith, w.apart v r, lookup-delete t.rounds version v);
    bounded = w.bounded;
  })
]

lookup-keep_abandoned :
    (d : Dict ℕ PendingBag) (version : ℕ) (p : PendingBag) (v : ℕ)
    → (lookup (keep_abandoned d version p) v ≡ none)
      ⊎ (lookup (keep_abandoned d version p) v ≡ (if version == v then some p else lookup d v))
lookup-keep_abandoned d version p v = ground (
  arith,
  lookup-trim (length (insert d version p)) (insert d version p) v,
  lookup-insert d version p v,
)

length-keep_abandoned :
    (d : Dict ℕ PendingBag) (version : ℕ) (p : PendingBag)
    → length (keep_abandoned d version p) ≤ abandoned_rounds_kept
length-keep_abandoned d version p =
    length-trim (length (insert d version p)) (insert d version p) (omega arith)

pub abandon_round-IsWellFormed :
    (t : RoundTracker) (version : ℕ) → IsWellFormed t → IsWellFormed (abandon_round t version).1
unfolding abandon_round
abandon_round-IsWellFormed t version w = elim (Option-cases (lookup t.rounds version)) [
  | inl closed ↦ rw closed w
  | inr (round, found) ↦ rw found (record {
    distinct = Distinct-delete t.rounds version w.distinct;
    challenges_distinct = w.challenges_distinct;
    keyed = λ v r e. ground (arith, w.keyed v r, lookup-delete t.rounds version v);
    abandoned_keyed = λ v p e. ground (
      arith,
      w.abandoned_keyed v p,
      w.keyed version round found,
      lookup-keep_abandoned t.abandoned version round.pending v,
    );
    apart = λ v r e. ground (
      arith,
      w.apart v r,
      lookup-delete t.rounds version v,
      lookup-keep_abandoned t.abandoned version round.pending v,
    );
    bounded = length-keep_abandoned t.abandoned version round.pending;
  })
]

Distinct-resume_each :
    (now : ℕ) (saved : List PendingVerification) (held : Dict String VerificationChallenge)
    → Distinct held
    → Distinct (resume_each now held saved)
unfolding resume_each
Distinct-resume_each now [] held d = d
Distinct-resume_each now (p ∷ saved) held d =
    Distinct-resume_each now saved (resume_one now held p)
      (ground (arith, Distinct-insert held p.channel_id (resumed_challenge p) d))

-- the operations on challenges and on the recovery leave the rounds alone
same_rounds :
    (t u : RoundTracker)
    → t.rounds ≡ u.rounds
    → t.abandoned ≡ u.abandoned
    → Distinct u.verifications
    → IsWellFormed t
    → IsWellFormed u
same_rounds t u r a d w = record {
  distinct = rw r at w.distinct;
  challenges_distinct = d;
  keyed = rw r at w.keyed;
  abandoned_keyed = rw a at w.abandoned_keyed;
  apart = rw (r, a) at w.apart;
  bounded = rw a at w.bounded;
}

pub perform-IsWellFormed :
    (op : RoundOp) (t : RoundTracker) → IsWellFormed t → IsWellFormed (perform op t)
unfolding perform record_share_confirmed drop_share record_share_failed abandon_all
    begin_verification end_verification resume_verifications begin_recovery take_recovery
perform-IsWellFormed (opens round) t w = begin_protect_round-IsWellFormed t round w
perform-IsWellFormed (confirms v id c) t w =
    modify-IsWellFormed t v (confirm_in v id c) _ refl (λ r. refl) w
perform-IsWellFormed (drops c v) t w = modify-IsWellFormed t v (drop_in c) _ refl (λ r. refl) w
perform-IsWellFormed (fails v f) t w = modify-IsWellFormed t v (fail_in v f) _ refl (λ r. refl) w
perform-IsWellFormed (completes v) t w = complete_round-IsWellFormed t v w
perform-IsWellFormed (abandons v) t w = abandon_round-IsWellFormed t v w
perform-IsWellFormed abandons_all t w = same_rounds t _ refl refl tt w
perform-IsWellFormed (challenges c challenge) t w =
    same_rounds t _ refl refl (Distinct-insert t.verifications c challenge w.challenges_distinct) w
perform-IsWellFormed (answers c) t w =
    same_rounds t _ refl refl (Distinct-delete t.verifications c w.challenges_distinct) w
perform-IsWellFormed (resumes saved now) t w =
    same_rounds t _ refl refl (Distinct-resume_each now saved t.verifications w.challenges_distinct)
      w
perform-IsWellFormed (recovers r) t w = same_rounds t _ refl refl w.challenges_distinct w
perform-IsWellFormed takes t w = same_rounds t _ refl refl w.challenges_distinct w

-- Whatever operations are performed on a tracker where each round stands under its own version,
-- none is both open and abandoned, no key stands twice and at most `abandoned_rounds_kept` abandoned
-- rounds are kept, they leave a tracker of which the same holds.
pub perform_all-IsWellFormed :
    (ops : List RoundOp) (t : RoundTracker) → IsWellFormed t → IsWellFormed (perform_all ops t)
unfolding perform_all
perform_all-IsWellFormed [] t w = w
perform_all-IsWellFormed (op ∷ ops) t w =
    perform_all-IsWellFormed ops (perform op t) (perform-IsWellFormed op t w)
