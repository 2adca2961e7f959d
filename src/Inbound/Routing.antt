-- ===== src/Inbound/Routing.antt =====
-- When an inbound request stops its batch.
use reference_app.Inbound.{
  ActionKind, ActionRequired, AttentionPayload, InboundContext, InboundOutcome,
  accept_automatically, discovery_kind, get_share_kind, handler_of, pairing_kind, pre_pair_kind,
  route_action_required, route_pairing, route_store_share, route_unpair, route_verify_share,
  store_share_kind, unknown_kind, unpair_kind, update_channel_info_kind, verify_share_kind,
}
use reference_app.Prelude.{
  Bool, Bool-cases, [], arith, false, inl, inr, not, refl, true, ◌∷◌, ◌≡◌, ◌⊎◌,
}
use reference_app.Types.{Vault, VaultConfig}

-- whether the owner is asked about a request of a kind
abbrev pub asks_owner : VaultConfig → ActionKind → Bool
asks_owner config pairing_kind = true
asks_owner config store_share_kind = not config.auto_accept_store_share_requests
asks_owner config verify_share_kind = not config.auto_accept_verify_share_requests
asks_owner config unpair_kind = not config.auto_accept_unpair_requests
asks_owner config _ = false

-- the batch goes on with nothing raised, or it stops with one confirmation and the record as it was
abbrev pub IsDecided : Vault → InboundOutcome → Type 0
IsDecided current out =
    ((out.hold_back ≡ false) × (out.raised ≡ []))
    ⊎ ((out.hold_back ≡ true)
        × (out.vault ≡ current)
        × ((payload : AttentionPayload) × (out.raised
              ≡ (record { blocks_drain = true; payload = payload }) ∷ [])))

decided :
    (event : ActionRequired) (current : Vault) (ctx : InboundContext) (kind : ActionKind)
    → IsDecided current (handler_of kind event current ctx)
unfolding route_pairing route_store_share route_verify_share route_unpair accept_automatically
decided event current ctx pairing_kind = inr (refl, refl, (_, refl))
decided event current ctx store_share_kind =
    elim (Bool-cases ctx.config.auto_accept_store_share_requests) [
      | inl auto ↦ rw auto (inl (refl, refl))
      | inr manual ↦ rw manual (inr (refl, refl, (_, refl)))
    ]
decided event current ctx verify_share_kind =
    elim (Bool-cases ctx.config.auto_accept_verify_share_requests) [
      | inl auto ↦ rw auto (inl (refl, refl))
      | inr manual ↦ rw manual (inr (refl, refl, (_, refl)))
    ]
decided event current ctx unpair_kind = elim (Bool-cases ctx.config.auto_accept_unpair_requests) [
  | inl auto ↦ rw auto (inl (refl, refl))
  | inr manual ↦ rw manual (inr (refl, refl, (_, refl)))
]
decided event current ctx pre_pair_kind = inl (refl, refl)
decided event current ctx discovery_kind = inl (refl, refl)
decided event current ctx get_share_kind = inl (refl, refl)
decided event current ctx update_channel_info_kind = inl (refl, refl)
decided event current ctx (unknown_kind k) = inl (refl, refl)

asked :
    (event : ActionRequired) (current : Vault) (ctx : InboundContext) (kind : ActionKind)
    → (handler_of kind event current ctx).hold_back ≡ asks_owner ctx.config kind
unfolding route_pairing route_store_share route_verify_share route_unpair accept_automatically
asked event current ctx pairing_kind = refl
asked event current ctx store_share_kind = ground arith
asked event current ctx verify_share_kind = ground arith
asked event current ctx unpair_kind = ground arith
asked event current ctx pre_pair_kind = refl
asked event current ctx discovery_kind = refl
asked event current ctx get_share_kind = refl
asked event current ctx update_channel_info_kind = refl
asked event current ctx (unknown_kind k) = refl

-- A request stops its batch exactly when its kind is one that the vault's configuration leaves to the
-- owner, as a pairing always is. Then the record is as it was and one confirmation is raised, which
-- blocks the drain; otherwise nothing is raised.
pub route_action_required-IsDecided :
    (event : ActionRequired) (current : Vault) (ctx : InboundContext)
    → ((route_action_required event current ctx).hold_back
        ≡ asks_owner ctx.config event.action_kind)
      × IsDecided current (route_action_required event current ctx)
unfolding route_action_required
route_action_required-IsDecided event current ctx =
    (asked event current ctx event.action_kind, decided event current ctx event.action_kind)
