-- ===== src/Replicas/Adoption.antt =====
-- Adopting a mirrored copy: `adoptReplicaSecret`, the failures of a restore, and the choice between
-- two copies (apps/web/src/replicaFlows.ts). The payload of the SDK is a parameter, and so are the
-- calls of `deps`; what they answer is in `AdoptionWorld`.
pub mod Order
use reference_app.Prelude.{
  Bool, List, Option, String, [], false, find, if◌then◌else◌, inl, inr, ltb, map, nat_eq, none, not,
  option_eq, pair_eq, some, string_eq, trim, true, ℕ, ◌&&◌, ◌++◌, ◌<>◌, ◌==◌, ◌||◌, ◌∷◌, ◌⊎◌,
}
use reference_app.Replicas.Views.{RosterActor}

pub data RestoreFailureCode : Type 0 where
  already_restored restore_conflict invariant_broken storage_error unknown_code : RestoreFailureCode

-- `SDK_RESTORE_CODES`
unfoldable pub sdk_restore_code : String → RestoreFailureCode
sdk_restore_code text =
    if text == "already_restored" || text == "ALREADY_RESTORED"
    then already_restored
    else if text == "restore_conflict" || text == "CONFLICT"
    then restore_conflict
    else if text == "invariant" || text == "INVARIANT"
    then invariant_broken
    else if text == "store_error" || text == "STORAGE"
    then storage_error
    else unknown_code

unfoldable pub code_name : RestoreFailureCode → String
code_name already_restored = "ALREADY_RESTORED"
code_name restore_conflict = "CONFLICT"
code_name invariant_broken = "INVARIANT"
code_name storage_error = "STORAGE"
code_name unknown_code = "UNKNOWN"

abbrev is_unknown : RestoreFailureCode → Bool
is_unknown unknown_code = true
is_unknown _ = false

-- `PRECONDITION_CODES`
abbrev pub is_precondition : RestoreFailureCode → Bool
is_precondition already_restored = true
is_precondition restore_conflict = true
is_precondition _ = false

-- What may be thrown: a string, or an object with what the code reads of it and its JSON text, or
-- something else, with its text, which is empty for null and undefined.
pub data Thrown : Type 0 where
  thrown_text : String → Thrown
  thrown_object :
      (code message : Option String) (channel_ids : List String) (json : String) → Thrown
  thrown_other : String → Thrown

pub record RestoreFailure : Type 0 where
  pub code : RestoreFailureCode
  pub message : String
  pub channel_ids : List String
  pub wipe_did_not_take : Bool
  pub text : String

abbrev pub code_of : Thrown → RestoreFailureCode
unfolding sdk_restore_code
code_of (thrown_object (some code) message channel_ids json) = sdk_restore_code code
code_of _ = unknown_code

unfoldable pub read_message : Thrown → Bool → String
read_message (thrown_text text) coded = text
read_message (thrown_object code (some message) channel_ids json) coded = message
read_message (thrown_object code none channel_ids json) coded = if coded then "" else json
read_message (thrown_other text) coded = text

abbrev read_channel_ids : Thrown → List String
read_channel_ids (thrown_object code message channel_ids json) = channel_ids
read_channel_ids _ = []

-- the two parts that are not empty, joined by a colon
abbrev joined_parts : String → String → String
joined_parts code message =
    if code == "" then message else if message == "" then code else code <> ": " <> message

abbrev head_of : RestoreFailureCode → String → String
unfolding code_name
head_of code message =
    let parts = joined_parts (if is_unknown code then "" else code_name code) message in
    if parts == "" then "restore was rejected without an error message" else parts

unfoldable pub comma_joined : List String → String
comma_joined [] = ""
comma_joined (t ∷ []) = t
comma_joined (t ∷ u ∷ ts) = t <> ", " <> comma_joined (u ∷ ts)

abbrev with_ids : String → List String → String
unfolding comma_joined
with_ids head [] = head
with_ids head (id ∷ ids) = head <> " (channel_ids: " <> comma_joined (id ∷ ids) <> ")"

unfoldable pub describe_restore_failure : Thrown → RestoreFailure
unfolding code_of read_message head_of with_ids
describe_restore_failure err =
    let code = code_of err in
    let message = read_message err (not (is_unknown code)) in
    record {
      code = code;
      message = message;
      channel_ids = read_channel_ids err;
      wipe_did_not_take = is_precondition code;
      text = with_ids (head_of code message) (read_channel_ids err);
    }

unfoldable pub describe_unreadable_secret : String → RestoreFailure
describe_unreadable_secret message = record {
  code = unknown_code;
  message = message;
  channel_ids = [];
  wipe_did_not_take = false;
  text =
      "The mirrored copy could not be read, so nothing was changed on this device — its vault is intact. "
      <> message;
}

pub record PendingReplicaAdoption (Payload : Type 0) : Type 0 where
  pub channel_id : String
  pub from_replica_id : String
  pub secret_id : String
  pub version : ℕ
  pub payload : Payload

module _ {Payload : Type 0} where
  unfoldable pub merge_replica_secret_receipt :
      Option (PendingReplicaAdoption Payload)
      → PendingReplicaAdoption Payload
      → PendingReplicaAdoption Payload
  merge_replica_secret_receipt none incoming = incoming
  merge_replica_secret_receipt (some existing) incoming =
      if ltb existing.version incoming.version then incoming else existing

  unfoldable pub adoption_source_label : PendingReplicaAdoption Payload → List RosterActor → String
  adoption_source_label adoption actors =
      let nameless = "replica source " <> adoption.from_replica_id in
      elim (find (λ a. not a.is_helper && a.secret_id == adoption.secret_id) actors) [
        | none ↦ nameless
        | some actor ↦ if trim actor.name == "" then nameless else trim actor.name
      ]

-- what the calls of an adoption answer: the payload as bytes or the error, the replica id, the events
-- of `restore` or what it throws, and whether the tracking shares were saved
pub record AdoptionWorld (Payload Event : Type 0) : Type 0 where
  pub normalized : Payload → Payload ⊎ String
  pub replica_id : ℕ
  pub restore : Payload → ℕ → List Event ⊎ Thrown
  pub tracking_error : Option String

pub data AdoptionCall (Event : Type 0) : Type 0 where
  clear_namespace_call clear_bookkeeping : AdoptionCall Event
  build_instance : String → ℕ → AdoptionCall Event
  restore_call : ℕ → AdoptionCall Event
  save_tracking_shares : String → ℕ → AdoptionCall Event
  on_event : Event → AdoptionCall Event

pub record AdoptionOutcome (Event : Type 0) : Type 0 where
  pub secret_id : String
  pub version : ℕ
  pub replica_id : ℕ
  pub events : List Event
  pub tracking_shares_error : Option String

-- the outcome, or the failure that `ReplicaAdoptionError` carries, after the calls in their order
abbrev pub Adopted : Type 0 → Type 0
Adopted Event = (AdoptionOutcome Event ⊎ RestoreFailure) × List (AdoptionCall Event)

module _ {Payload Event : Type 0} where
  abbrev pub opening_calls : PendingReplicaAdoption Payload → ℕ → List (AdoptionCall Event)
  opening_calls adoption replica_id =
      clear_namespace_call
      ∷ clear_bookkeeping
      ∷ build_instance adoption.secret_id replica_id
      ∷ restore_call adoption.version
      ∷ []

  -- what follows `restore`
  abbrev pub after_restore :
      AdoptionWorld Payload Event
      → PendingReplicaAdoption Payload
      → List Event ⊎ Thrown
      → Adopted Event
  after_restore world adoption (inr err) =
      (inr (describe_restore_failure err), opening_calls adoption world.replica_id)
  after_restore world adoption (inl events) = (
    inl (record {
      secret_id = adoption.secret_id;
      version = adoption.version;
      replica_id = world.replica_id;
      events = events;
      tracking_shares_error = world.tracking_error;
    }),
    opening_calls adoption world.replica_id
        ++ save_tracking_shares adoption.secret_id adoption.version ∷ map on_event events,
  )

  abbrev pub after_normalizing :
      AdoptionWorld Payload Event
      → PendingReplicaAdoption Payload
      → Payload ⊎ String
      → Adopted Event
  after_normalizing world adoption (inr message) = (inr (describe_unreadable_secret message), [])
  after_normalizing world adoption (inl secret) =
      after_restore world adoption (world.restore secret adoption.version)

  unfoldable pub adopt_replica_secret :
      AdoptionWorld Payload Event → PendingReplicaAdoption Payload → Adopted Event
  unfolding describe_unreadable_secret describe_restore_failure
  adopt_replica_secret world adoption =
      after_normalizing world adoption (world.normalized adoption.payload)
