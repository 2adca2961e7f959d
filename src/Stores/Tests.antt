-- ===== src/Stores/Tests.antt =====
-- Examples over the stores of apps/web/src/stores.ts.
use reference_app.Prelude.{
  List, [], arith, delete, false, includes, insert, lookup, nat_eq, none, option_eq, pair_eq, refl,
  some, string_eq, true, ℕ, ◌&&◌, ◌==◌, ◌||◌, ◌↔◌, ◌∷◌, ◌≡◌, ◌≢◌, ◌≤◌,
}
use reference_app.Stores.{
  Browser, LocalStorage, Partition, StateItem, add_to_index, after, store_item,
}
use reference_app.Stores.Channels.{forget_helper_channel, helper_ids, row_at}
use reference_app.Stores.Channels.Traces.{
  forget_helper_channel-others, forget_helper_channel-traces,
}
use reference_app.Stores.Links.{collect, link_channel, link_table, linked, linked_channels, peers}
use reference_app.Stores.Links.Closure.{Reach, linked_channels-Reach}
use reference_app.Stores.Secrets.{load_secret}
use reference_app.Stores.Shares.{
  Share, channels_with_shares, latest_version, load_raw_share, read_share, remove_channel,
  remove_versions, save, versions_for,
}
use reference_app.Stores.Shares.Latest.{latest_version-above}
use reference_app.Stores.Shares.Refinement.{
  IsIndexed, ShareOp, remove_all, remove_some, save-refines, save_share, share_call, share_calls,
  share_calls-refine, spec,
}
use reference_app.Stores.States.{
  canonical_state_key, is_round_version, open_sharing_round_versions, remove_state, save_state,
  state_index_of,
}
use reference_app.Stores.States.Rounds.{IsRoundIndex, round_fields, save_state-rounds}

abbrev roomy : Browser
roomy = record { has_room = λ before written. true; now = 1000 }

abbrev blank_storage : LocalStorage
blank_storage = record {
  helper_rows = [];
  member_rows = [];
  helper_index = [];
  member_index = [];
  channel_links = [];
  secret_rows = [];
  share_data = [];
  share_meta = [];
  channel_versions = [];
  share_channels = [];
  user_secrets = [];
  state_rows = [];
  state_index = [];
  last_quota_failure_at = none;
}

abbrev mine : Partition
mine = ("alice", "s1")

abbrev piece : ℕ → Share
piece v = record { secret_id = "s1"; version = v; bytes = "AQID" }

abbrev some_ops : List ShareOp
some_ops =
    save_share 7 (piece 1)
    ∷ save_share 7 (piece 2)
    ∷ save_share 9 (piece 2)
    ∷ remove_some 7 (1 ∷ [])
    ∷ remove_all 9
    ∷ []

blank-IsIndexed : IsIndexed blank_storage mine
unfolding versions_for channels_with_shares lookup
blank-IsIndexed = record {
  listed_versions = λ c v bytes h. absurd (ground (arith, h));
  listed_channels = λ c v h. absurd (ground (arith, h));
}

abbrev stored_after : LocalStorage
unfolding share_calls share_call save remove_channel remove_versions store_item add_to_index
    versions_for channels_with_shares
stored_after = after (share_calls roomy blank_storage mine some_ops)

share_calls-refine_example :
    IsIndexed stored_after mine
    × ((c v : ℕ)
        → read_share stored_after mine c v ≡ spec some_ops (read_share blank_storage mine) c v)
unfolding share_calls stored_after lookup insert
share_calls-refine_example =
    share_calls-refine some_ops roomy blank_storage mine stored_after blank-IsIndexed refl

abbrev one_share : LocalStorage
unfolding save
one_share = after (save roomy blank_storage mine 7 (piece 2))

one_share-IsIndexed : IsIndexed one_share mine
unfolding one_share save store_item add_to_index versions_for channels_with_shares lookup insert
one_share-IsIndexed =
    (save-refines roomy blank_storage mine 7 (piece 2) one_share blank-IsIndexed refl).0

latest_version-above_example : (m : ℕ) × (latest_version one_share mine ≡ some m) × (2 ≤ m)
unfolding one_share save read_share store_item add_to_index versions_for channels_with_shares lookup
    insert
latest_version-above_example =
    latest_version-above one_share mine 7 2 (piece 2) one_share-IsIndexed refl

abbrev two_linked : LocalStorage
unfolding link_channel
two_linked = after (link_channel roomy blank_storage mine 7 9)

linked_channels-Reach_example :
    (r : List ℕ) × (linked_channels two_linked mine 7 ≡ some r)
    × ((x : ℕ) → (includes r x ≡ true) ↔ Reach (link_table two_linked mine) 7 x)
linked_channels-Reach_example = linked_channels-Reach two_linked mine 7

linked_channels_two : linked_channels two_linked mine 9 ≡ some (9 ∷ 7 ∷ [])
unfolding linked_channels two_linked link_channel store_item linked link_table collect peers lookup
    insert
linked_channels_two = refl

abbrev round_state : StateItem
round_state = record { fields = round_fields 4; body = "{}" }

abbrev with_round : LocalStorage
unfolding save_state
with_round = after (save_state roomy blank_storage mine round_state)

blank-IsRoundIndex : IsRoundIndex blank_storage mine
unfolding state_index_of lookup
blank-IsRoundIndex = record { all_rounds = tt }

save_state-rounds_example :
    IsRoundIndex with_round mine
    × ((x : ℕ)
        → includes (open_sharing_round_versions with_round mine) x ≡ (
            includes (open_sharing_round_versions blank_storage mine) x
            || (is_round_version 4 && 4 == x)))
unfolding with_round save_state store_item add_to_index state_index_of canonical_state_key lookup
    insert
save_state-rounds_example =
    save_state-rounds roomy blank_storage mine 4 "{}" with_round blank-IsRoundIndex refl

abbrev round_gone : LocalStorage
unfolding remove_state with_round
round_gone = after (remove_state roomy with_round mine (round_fields 4))

abbrev forgotten : LocalStorage
unfolding forget_helper_channel one_share
forgotten = after (forget_helper_channel roomy one_share mine 7)

forget_helper_channel-traces_example :
    IsIndexed forgotten mine
    × (row_at forgotten.helper_rows mine 7 ≡ none)
    × (includes (helper_ids forgotten mine) 7 ≡ false)
    × ((kind : ℕ) → kind ≤ 2 → load_secret forgotten mine 7 kind ≡ none)
    × ((v : ℕ) → read_share forgotten mine 7 v ≡ none)
    × (includes (channels_with_shares forgotten mine) 7 ≡ false)
    × ((x : ℕ)
        → (includes (peers (link_table forgotten mine) x) 7
            || includes (peers (link_table forgotten mine) 7) x)
          ≡ false)
unfolding forgotten forget_helper_channel one_share save store_item add_to_index helper_ids
    versions_for channels_with_shares link_table lookup insert delete
forget_helper_channel-traces_example =
    forget_helper_channel-traces roomy one_share mine 7 forgotten one_share-IsIndexed refl

forget_helper_channel-others_example :
    (row_at forgotten.helper_rows mine 9 ≡ row_at one_share.helper_rows mine 9)
    × (includes (helper_ids forgotten mine) 9 ≡ includes (helper_ids one_share mine) 9)
    × ((kind : ℕ) → load_secret forgotten mine 9 kind ≡ load_secret one_share mine 9 kind)
    × ((v : ℕ) → load_raw_share forgotten mine 9 v ≡ load_raw_share one_share mine 9 v)
    × (versions_for forgotten mine 9 ≡ versions_for one_share mine 9)
    × ((x : ℕ)
        → x ≢ 7
        → includes (peers (link_table forgotten mine) 9) x
          ≡ includes (peers (link_table one_share mine) 9) x)
unfolding forgotten forget_helper_channel one_share save store_item add_to_index helper_ids
    versions_for channels_with_shares link_table lookup insert delete
forget_helper_channel-others_example =
    forget_helper_channel-others roomy one_share mine 7 9 forgotten (λ h. absurd (omega (arith, h)))
      refl
