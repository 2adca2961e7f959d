-- ===== src/Roster/Entries.antt =====
-- `resolveRosterEntries` of apps/web/src/peerIdentity.ts: which actor of the node each entry of a
-- recovered roster is. An endpoint is its uri. `object` of an actor says which object it is, as `===`
-- does: the source keeps the claimed actors in a `Set` of objects.
pub mod Claims
use reference_app.Prelude.{
  Bool, List, Option, String, [], any, filter, find, if◌then◌else◌, includes, map, nat_eq, none,
  not, option_eq, or_else, pair_eq, set_add, set_of, some, string_eq, ℕ, ◌&&◌, ◌==◌, ◌∷◌,
}
use reference_app.Roster.{or_try, sole}

pub record RosterEntry : Type 0 where
  pub channel_id : String
  pub uris : List String
  pub name : Option String

pub record RosterCandidate : Type 0 where
  pub object : ℕ
  pub id : String
  pub name : String
  pub uri : String
  pub more_uris : List String
  pub channel_id : Option String

pub record RosterMatch : Type 0 where
  pub actor : Option RosterCandidate
  pub transport_uri : String

unfoldable pub uris_of : RosterCandidate → List String
uris_of actor = set_of [] (actor.uri ∷ actor.more_uris)

unfoldable pub has_uri : RosterCandidate → String → Bool
unfolding uris_of
has_uri actor uri = includes (uris_of actor) uri

-- an entry with the actor that it resolved to so far
abbrev pub Slot : Type 0
Slot = RosterEntry × Option RosterCandidate

-- `claim`: an actor is taken once
abbrev pub claimable : List ℕ → Option RosterCandidate → Option RosterCandidate
claimable claimed none = none
claimable claimed (some actor) = if includes claimed actor.object then none else some actor

abbrev pub claim : List ℕ → Option RosterCandidate → List ℕ
claim claimed none = claimed
claim claimed (some actor) = set_add claimed actor.object

-- One pass over the entries that are not resolved, in which each claims what `choose` picks.
unfoldable pub claim_pass :
    (List ℕ → RosterEntry → Option RosterCandidate) → List ℕ → List Slot → List Slot × List ℕ
claim_pass choose claimed [] = ([], claimed)
claim_pass choose claimed ((entry, some actor) ∷ slots) =
    let rest = claim_pass choose claimed slots in ((entry, some actor) ∷ rest.0, rest.1)
claim_pass choose claimed ((entry, none) ∷ slots) =
    let pick = claimable claimed (choose claimed entry) in
    let rest = claim_pass choose (claim claimed pick) slots in ((entry, pick) ∷ rest.0, rest.1)

-- the keys of `actorUris`: each object once
abbrev pub objects_of : List RosterCandidate → List RosterCandidate
objects_of [] = []
objects_of (a ∷ actors) = a ∷ filter (λ b. not (b.object == a.object)) (objects_of actors)

-- the only actor that advertises an endpoint, for the first endpoint that has one
unfoldable pub sole_advertiser : List RosterCandidate → List String → Option RosterCandidate
unfolding has_uri
sole_advertiser actors [] = none
sole_advertiser actors (uri ∷ uris) =
    let rest = sole_advertiser actors uris in
    or_try (sole (filter (λ a. has_uri a uri) actors)) rest

abbrev pub by_endpoint : List RosterCandidate → List ℕ → RosterEntry → Option RosterCandidate
by_endpoint actors claimed entry = sole_advertiser (objects_of actors) entry.uris

abbrev pub by_channel : List RosterCandidate → List ℕ → RosterEntry → Option RosterCandidate
by_channel actors claimed entry =
    find (λ a. not (includes claimed a.object) && a.channel_id == some entry.channel_id) actors

abbrev pub is_free_named : List ℕ → String → RosterCandidate → Bool
is_free_named claimed name a = not (includes claimed a.object) && a.name == name

abbrev pub shares_endpoint : RosterEntry → RosterCandidate → Bool
shares_endpoint entry a = any (λ uri. has_uri a uri) entry.uris

abbrev pub best_of : List RosterCandidate → List RosterCandidate → Option RosterCandidate
best_of [] named = sole named
best_of (a ∷ sharing) named = sole (a ∷ sharing)

abbrev pub by_name : List RosterCandidate → List ℕ → RosterEntry → Option RosterCandidate
by_name actors claimed entry = elim entry.name [
  | none ↦ none
  | some name ↦
      let named = filter (is_free_named claimed name) actors in
      if name == "" then none else best_of (filter (shares_endpoint entry) named) named
]

abbrev pub first_uri : List String → String
first_uri [] = ""
first_uri (uri ∷ uris) = uri

abbrev pub match_of : Slot → RosterMatch
match_of (entry, none) = record { actor = none; transport_uri = first_uri entry.uris }
match_of (entry, some actor) = record {
  actor = some actor;
  transport_uri = or_else (find (λ uri. has_uri actor uri) entry.uris) (first_uri entry.uris);
}

-- the three passes
unfoldable pub claimed_slots : List RosterEntry → List RosterCandidate → List Slot
unfolding claim_pass sole_advertiser has_uri
claimed_slots entries actors =
    let first = claim_pass (by_endpoint actors) [] (map (λ entry. (entry, none)) entries) in
    let second = claim_pass (by_channel actors) first.1 first.0 in
    (claim_pass (by_name actors) second.1 second.0).0

unfoldable pub resolve_roster_entries : List RosterEntry → List RosterCandidate → List RosterMatch
unfolding claimed_slots has_uri
resolve_roster_entries entries actors = map match_of (claimed_slots entries actors)
