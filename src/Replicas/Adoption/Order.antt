-- ===== src/Replicas/Adoption/Order.antt =====
-- The order of the calls of an adoption (`adoptReplicaSecret` of apps/web/src/replicaFlows.ts).
use reference_app.Prelude.{
  Bool, List, String, [], any, ap, false, inl, inr, map, not, refl, true, ◌&&◌, ◌∷◌, ◌≡◌, ◌⊎◌,
}
use reference_app.Replicas.Adoption.{
  Adopted, AdoptionCall, AdoptionWorld, PendingReplicaAdoption, Thrown, adopt_replica_secret,
  after_normalizing, after_restore, build_instance, clear_bookkeeping, clear_namespace_call,
  on_event, restore_call, save_tracking_shares,
}

-- what has been done so far
pub record AdoptionProgress : Type 0 where
  pub wiped : Bool
  pub forgotten : Bool
  pub built : Bool
  pub restore_made : Bool
  pub tracking_tried : Bool

abbrev pub nothing_done : AdoptionProgress
nothing_done = record {
  wiped = false;
  forgotten = false;
  built = false;
  restore_made = false;
  tracking_tried = false;
}

module _ {Event : Type 0} where
  -- Whether a call may come now: nothing is wiped once a copy was restored, the instance is built over
  -- what is wiped, there is one restore, on an instance, and what follows needs it.
  abbrev pub may_come : AdoptionProgress → AdoptionCall Event → Bool
  may_come p clear_namespace_call = not p.restore_made
  may_come p clear_bookkeeping = not p.restore_made
  may_come p (build_instance secret_id replica_id) = p.wiped && p.forgotten && not p.built
  may_come p (restore_call version) = p.wiped && p.forgotten && p.built && not p.restore_made
  may_come p (save_tracking_shares secret_id version) = p.restore_made && not p.tracking_tried
  may_come p (on_event e) = p.restore_made && p.tracking_tried

  abbrev pub progressed : AdoptionProgress → AdoptionCall Event → AdoptionProgress
  progressed p clear_namespace_call = record p { wiped = true }
  progressed p clear_bookkeeping = record p { forgotten = true }
  progressed p (build_instance secret_id replica_id) = record p { built = true }
  progressed p (restore_call version) = record p { restore_made = true }
  progressed p (save_tracking_shares secret_id version) = record p { tracking_tried = true }
  progressed p (on_event e) = p

  -- every call comes when it may
  abbrev pub in_order : AdoptionProgress → List (AdoptionCall Event) → Bool
  in_order p [] = true
  in_order p (call ∷ calls) = may_come p call && in_order (progressed p call) calls

  abbrev pub events_of : List (AdoptionCall Event) → List Event
  events_of [] = []
  events_of (on_event e ∷ calls) = e ∷ events_of calls
  events_of (_ ∷ calls) = events_of calls

  events_of-map : (events : List Event) → events_of (map on_event events) ≡ events
  events_of-map [] = refl
  events_of-map (e ∷ events) = ap (λ xs. e ∷ xs) (events_of-map events)

  -- the events are handed over at the end, in any number
  in_order-events :
      (p : AdoptionProgress) (events : List Event)
      → (p.restore_made && p.tracking_tried) ≡ true
      → in_order p (map on_event events) ≡ true
  in_order-events p [] h = refl
  in_order-events p (e ∷ events) h = rw h (in_order-events p events h)

  abbrev pub is_wipe : AdoptionCall Event → Bool
  is_wipe clear_namespace_call = true
  is_wipe clear_bookkeeping = true
  is_wipe _ = false

module _ {Payload Event : Type 0} (world : AdoptionWorld Payload Event)
    (adoption : PendingReplicaAdoption Payload) where
  -- an outcome with all the events of the restore handed over, or a failure with none
  abbrev pub Delivered : Payload ⊎ String → Adopted Event → Type 0
  Delivered read (inl outcome, calls) =
      (events_of calls ≡ outcome.events)
      × ((secret : Payload) × (read ≡ inl secret)
          × (world.restore secret adoption.version ≡ inl outcome.events))
  Delivered read (inr failure, calls) = events_of calls ≡ []

  -- what holds of an adoption whose payload reads as `read`
  abbrev pub IsSafe : Payload ⊎ String → Adopted Event → Type 0
  IsSafe read adopted =
      (in_order nothing_done adopted.1 ≡ true)
      × Delivered read adopted
      × ((any is_wipe adopted.1 ≡ false) ⊎ ((secret : Payload) × (read ≡ inl secret)))

  after_restore-IsSafe :
      (secret : Payload) (restored : List Event ⊎ Thrown)
      → world.restore secret adoption.version ≡ restored
      → IsSafe (inl secret) (after_restore world adoption restored)
  after_restore-IsSafe secret (inr err) e = (refl, refl, inr (secret, refl))
  after_restore-IsSafe secret (inl events) e =
      (in_order-events _ events refl, (events_of-map events, (secret, refl, e)), inr (secret, refl))

  after_normalizing-IsSafe :
      (read : Payload ⊎ String) → IsSafe read (after_normalizing world adoption read)
  after_normalizing-IsSafe (inr message) = (refl, refl, inl refl)
  after_normalizing-IsSafe (inl secret) =
      after_restore-IsSafe secret (world.restore secret adoption.version) refl

  -- Whatever the SDK and the browser answer, an adoption makes its calls in order: the instance is built
  -- only after the namespace and the replica records were wiped, the copy is restored once and only
  -- then, and no event is handed over before the tracking shares were tried. An outcome has handed
  -- over each event of the restore once, in their order, and a failure none. Nothing is wiped unless
  -- the payload could be read.
  pub adopt_replica_secret-IsSafe :
      IsSafe (world.normalized adoption.payload) (adopt_replica_secret world adoption)
  unfolding adopt_replica_secret
  adopt_replica_secret-IsSafe = after_normalizing-IsSafe (world.normalized adoption.payload)
