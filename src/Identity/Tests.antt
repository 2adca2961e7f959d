-- ===== src/Identity/Tests.antt =====
-- Examples over apps/web/src/vault/identity.ts.
use reference_app.Fold.Context.{outcome_failed, outcome_pending, updated}
use reference_app.Identity.{IdentityUpdate, unexplained, with_channel_outcome, with_expired_waits}
use reference_app.Identity.Answers.{with_channel_outcome_first}
use reference_app.Prelude.{
  [], false, lookup, nat_eq, none, option_eq, pair_eq, refl, some, string_eq, true, ◌∷◌, ◌≡◌,
}

abbrev renamed : IdentityUpdate
renamed = record {
  changed_name = true;
  changed_endpoint = false;
  values = record { name = some "Home"; endpoint = none };
  sent_at = 100;
  channels =
      (
        "7",
        record {
          peer_name = "Bob";
          sent_at = 100;
          outcome = outcome_pending;
          detail = unexplained;
        },
      )
      ∷ [];
}

with_channel_outcome_first_example :
    (left : IdentityUpdate) × (with_channel_outcome (some renamed) "7" updated unexplained
      ≡ some left)
    × (lookup left.channels "7"
        ≡ some
            (record { peer_name = "Bob"; sent_at = 100; outcome = updated; detail = unexplained }))
    × (with_channel_outcome (some left) "7" outcome_failed unexplained ≡ some left)
    × ((later : IdentityUpdate)
        → with_expired_waits (some left) 9000 30 ≡ some later
        → lookup later.channels "7"
          ≡ some (record {
            peer_name = "Bob";
            sent_at = 100;
            outcome = updated;
            detail = unexplained;
          }))
unfolding lookup
with_channel_outcome_first_example =
    with_channel_outcome_first renamed "7"
      (record { peer_name = "Bob"; sent_at = 100; outcome = outcome_pending; detail = unexplained })
      updated outcome_failed unexplained unexplained 9000 30 refl refl refl
