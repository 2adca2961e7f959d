-- ===== src/Rounds/Challenges.antt =====
-- The verification challenges of the tracker, each under its channel.
use reference_app.Prelude.{
  Bool, Dict, List, Option, String, [], any, delete, false, filter, has, if◌then◌else◌, insert,
  lookup, ltb, map, nat_eq, none, not, some, string_eq, true, values, ℕ, ◌&&◌, ◌==◌, ◌∷◌,
}
use reference_app.Rounds.{RoundTracker, VerificationChallenge}
use reference_app.Types.{PendingVerification}

unfoldable pub begin_verification : RoundTracker → String → VerificationChallenge → RoundTracker
begin_verification t channel_id challenge = record t {
  verifications = insert t.verifications channel_id challenge;
}

abbrev pub is_for : Option ℕ → ℕ → Bool
is_for none version = true
is_for (some asked) version = version == asked

abbrev pub is_live : ℕ → VerificationChallenge → Bool
is_live now challenge = ltb now challenge.deadline

abbrev pub awaits_answer : Option ℕ → ℕ → Option VerificationChallenge → Bool
awaits_answer version now none = false
awaits_answer version now (some challenge) =
    is_live now challenge && is_for version challenge.version

unfoldable pub is_awaiting_verification : RoundTracker → String → Option ℕ → ℕ → Bool
is_awaiting_verification t channel_id version now =
    awaits_answer version now (lookup t.verifications channel_id)

unfoldable pub end_verification : RoundTracker → String → RoundTracker
end_verification t channel_id = record t { verifications = delete t.verifications channel_id }

unfoldable pub is_verifying : RoundTracker → ℕ → ℕ → Bool
is_verifying t version now =
    any (λ c. c.version == version && is_live now c) (values t.verifications)

abbrev pub persisted_challenge : String × VerificationChallenge → PendingVerification
persisted_challenge (channel_id, challenge) = record {
  channel_id = channel_id;
  protocol_secret_id = challenge.protocol_secret_id;
  version = challenge.version;
  deadline = challenge.deadline;
}

unfoldable pub snapshot_verifications : RoundTracker → ℕ → List PendingVerification
snapshot_verifications t now =
    map persisted_challenge (filter (λ e. is_live now e.1) t.verifications)

abbrev pub resumed_challenge : PendingVerification → VerificationChallenge
resumed_challenge p = record {
  protocol_secret_id = p.protocol_secret_id;
  version = p.version;
  deadline = p.deadline;
}

abbrev pub resume_one :
    ℕ → Dict String VerificationChallenge → PendingVerification → Dict String VerificationChallenge
resume_one now held p =
    if ltb now p.deadline && not (has held p.channel_id)
    then insert held p.channel_id (resumed_challenge p)
    else held

-- the loop of `resumeVerifications`
unfoldable pub resume_each :
    ℕ
    → Dict String VerificationChallenge
    → List PendingVerification
    → Dict String VerificationChallenge
resume_each now held [] = held
resume_each now held (p ∷ saved) = resume_each now (resume_one now held p) saved

unfoldable pub resume_verifications : RoundTracker → List PendingVerification → ℕ → RoundTracker
unfolding resume_each
resume_verifications t saved now = record t {
  verifications = resume_each now t.verifications saved;
}
