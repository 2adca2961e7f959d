-- ===== src/Roster/Targets.antt =====
-- Who a share may be sent to, and which list of the page shows a row.
use reference_app.Prelude.{
  All, Bool, Bool-cases, List, String, [], arith, eq_iff, false, filter, inl, inr, map, nat_eq,
  none, not, or_else, some, string_eq, sym, true, ℕ, ◌&&◌, ◌++◌, ◌==◌, ◌↔◌, ◌∷◌, ◌≡◌, ◌≢◌, ◌⊎◌,
}
use reference_app.Roster.{
  DispatchEvent, PairedChannelSplit, ReplicaChannel, is_paired, is_replica_channel, is_share_target,
  place, publish_targets, replica_of, round_recipients, split_from, split_paired_channels,
}
use reference_app.Types.{PairedParticipant, helper, owner, paired}
use mathlib.Core.List.{append-nil, append_assoc}

-- A share target is a paired row with a channel whose peer is neither a replica nor an owner.
pub is_share_target_iff :
    (h : PairedParticipant)
    → (is_share_target h ≡ true) ↔ (
        (h.connection_status ≡ paired)
        × (h.channel_id ≢ "")
        × ((h.peer_role ≡ none) ⊎ (h.peer_role ≡ some helper)))
unfolding is_share_target
is_share_target_iff h = ground (arith, eq_iff h.channel_id "")

All-filter_holds {ℓ} :
    {A : Type ℓ} (P : A → Type 0) (p : A → Bool) (xs : List A)
    → ((x : A) → p x ≡ true → P x)
    → All P (filter p xs)
All-filter_holds P p [] h = tt
All-filter_holds P p (x ∷ xs) h = elim (Bool-cases (p x)) [
  | inl there ↦ rw there (h x there, All-filter_holds P p xs h)
  | inr gone ↦ rw gone (All-filter_holds P p xs h)
]

-- a row that this vault's shares may go to
abbrev pub HoldsShares : PairedParticipant → Type 0
HoldsShares p =
    (is_replica_channel p ≡ false) × (p.connection_status ≡ paired) × (p.peer_role ≢ some owner)

target_HoldsShares : (p : PairedParticipant) → is_share_target p ≡ true → HoldsShares p
unfolding is_share_target is_replica_channel
target_HoldsShares p h = (ground arith, ground arith, ground arith)

-- No participant that a round is announced to, and none that it is recorded as sent to, is a
-- replica channel or an owner, and each is paired; whatever events the library reports.
pub recipients_HoldsShares :
    (participants : List PairedParticipant) (pending_channel_ids : List String)
    (events : List DispatchEvent) (version : ℕ)
    → All HoldsShares (publish_targets participants pending_channel_ids)
      × All HoldsShares (round_recipients participants events version)
unfolding round_recipients publish_targets
recipients_HoldsShares participants pending_channel_ids events version = (
  All-filter_holds HoldsShares _ participants (λ p h. target_HoldsShares p (ground arith)),
  All-filter_holds HoldsShares _ participants (λ p h. target_HoldsShares p (ground arith)),
)

abbrev pub is_listed : PairedParticipant → Bool
is_listed h = is_paired h.connection_status && not (h.channel_id == "")

abbrev pub replica_row : PairedParticipant → Bool
replica_row h = is_listed h && is_replica_channel h

abbrev pub participant_row : PairedParticipant → Bool
participant_row h = is_listed h && not (is_replica_channel h)

abbrev pub as_replica : PairedParticipant → ReplicaChannel
as_replica h = replica_of h (or_else h.peer_role helper)

split_from_lem :
    (s : PairedChannelSplit) (rows : List PairedParticipant)
    → ((split_from s rows).participants ≡ s.participants ++ filter participant_row rows)
      × ((split_from s rows).replicas ≡ s.replicas ++ map as_replica (filter replica_row rows))
unfolding split_from is_replica_channel
split_from_lem s [] = (sym (append-nil _), sym (append-nil _))
split_from_lem s (h ∷ rows) = (
  ground (
    arith,
    (split_from_lem s rows).0,
    (split_from_lem (place h h.peer_role s) rows).0,
    append_assoc s.participants (h ∷ []) (filter participant_row rows),
  ),
  ground (
    arith,
    (split_from_lem s rows).1,
    (split_from_lem (place h h.peer_role s) rows).1,
    append_assoc s.replicas (as_replica h ∷ []) (map as_replica (filter replica_row rows)),
  ),
)

-- The two lists of the page: the paired rows whose peer is no replica, and those whose peer is one,
-- each in the order of the roster. So each paired row is in one list, and in one only.
pub split_paired_channels_lem :
    (rows : List PairedParticipant)
    → ((split_paired_channels rows).participants ≡ filter participant_row rows)
      × ((split_paired_channels rows).replicas ≡ map as_replica (filter replica_row rows))
unfolding split_paired_channels
split_paired_channels_lem rows = split_from_lem (record { participants = []; replicas = [] }) rows
