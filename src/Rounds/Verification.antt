-- ===== src/Rounds/Verification.antt =====
-- Verification challenges across a reload, and their answers.
use reference_app.Prelude.{
  Dict, Distinct, List, Option, String, [], arith, eq_iff, false, filter, if◌then◌else◌, insert,
  lookup, lookup-delete, lookup-insert, map, nat_eq, none, some, string_eq, ℕ, ◌==◌, ◌∷◌, ◌≡◌, ◌≤◌,
}
use reference_app.Rounds.{RoundTracker, VerificationChallenge, empty}
use reference_app.Rounds.Challenges.{
  end_verification, is_awaiting_verification, is_live, persisted_challenge, resume_each,
  resume_verifications, snapshot_verifications,
}
use reference_app.Types.{PendingVerification}

abbrev live_at : ℕ → Option VerificationChallenge → Option VerificationChallenge
live_at now none = none
live_at now (some c) = if is_live now c then some c else none

abbrev first_of :
    Option VerificationChallenge → Option VerificationChallenge → Option VerificationChallenge
first_of none o = o
first_of (some c) o = some c

abbrev saved_at : ℕ → Dict String VerificationChallenge → List PendingVerification
saved_at now m = map persisted_challenge (filter (λ e. is_live now e.1) m)

lookup-resume_each :
    (now later : ℕ) (m held : Dict String VerificationChallenge) (k : String)
    → now ≤ later
    → Distinct m
    → lookup (resume_each later held (saved_at now m)) k
      ≡ first_of (lookup held k) (live_at later (lookup m k))
unfolding resume_each lookup
lookup-resume_each now later [] held k le d = ground arith
lookup-resume_each now later ((c, v) ∷ m) held k le d = ground (
  arith,
  lookup-resume_each now later m held k le d.1,
  lookup-resume_each now later m (insert held c v) k le d.1,
  lookup-insert held c v k,
  eq_iff c k,
)

-- What a reload keeps, where no channel has two challenges: a new tracker that picks up the
-- challenges persisted at `now` awaits, at that time or any later one, exactly the answers that the
-- old one would await then.
pub is_awaiting_verification-resume_verifications :
    (t : RoundTracker) (now later : ℕ) (channel_id : String) (version : Option ℕ)
    → now ≤ later
    → Distinct t.verifications
    → is_awaiting_verification
        (resume_verifications empty (snapshot_verifications t now) later)
        channel_id
        version
        later
      ≡ is_awaiting_verification t channel_id version later
unfolding is_awaiting_verification resume_verifications snapshot_verifications
is_awaiting_verification-resume_verifications t now later channel_id version le d =
    rw (lookup-resume_each now later t.verifications [] channel_id le d)
      (unfold lookup in ground arith)

-- An answered challenge is not awaited any more; the challenges of other channels are as before.
pub is_awaiting_verification-end_verification :
    (t : RoundTracker) (answered channel_id : String) (version : Option ℕ) (now : ℕ)
    → is_awaiting_verification (end_verification t answered) channel_id version now ≡ (
        if answered == channel_id then false else is_awaiting_verification t channel_id version now)
unfolding is_awaiting_verification end_verification
is_awaiting_verification-end_verification t answered channel_id version now =
    ground (arith, lookup-delete t.verifications answered channel_id)
