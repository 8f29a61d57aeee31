-- ===== src/Tests/Registry.antt =====
-- The cache of the registry on sample ids; a protocol is its name.
use mathlib.Core.List.{map}
use protocol_lens.Prelude.{◌+◌, ◌≤◌, String, true, List, [], ◌∷◌, ◌≡◌, refl, ascii, split, join}
use protocol_lens.Registry.{
  Registry, empty_registry, joined, load_protocol, load_succeeds, load_all_protocols, all_fails,
  shared, clear_cache, AllPromise,
}
use protocol_lens.Registry.Loads.{
  Reaches, fresh, called, succeeded, count, cached_count, loads_once,
}
use protocol_lens.Registry.Actors.{Actor, Participants, ids_of, get_actors_for_flow}
use protocol_lens.Registry.Actors.Distinct.{are_distinct, get_actors_for_flow-distinct}
use protocol_lens.Registry.Failure.{Call, load, succeeds, load_all, run, failure-stays}

abbrev asked : Registry String
asked = (load_protocol "oidc" empty_registry).1

abbrev answered : Registry String
answered = load_succeeds "oidc" "OpenID Connect" asked

second_joins : (load_protocol "oidc" asked).0 ≡ joined
unfolding load_protocol
second_joins = refl

-- After `clearCache` the same protocol is loaded a second time while the first load is in flight.
loaded_twice : count "oidc" (load_protocol "oidc" (clear_cache asked)).1.flights ≡ 2
unfolding load_protocol clear_cache
loaded_twice = refl

history : Reaches answered
unfolding load_protocol
history = succeeded "oidc" "OpenID Connect" asked (called "oidc" empty_registry fresh) refl

loads_once_example : count "oidc" answered.flights + cached_count "oidc" answered ≤ 1
loads_once_example = loads_once "oidc" answered history

abbrev calls : List (Call String)
calls = load "oidc" ∷ succeeds "oidc" "OpenID Connect" ∷ load_all ∷ []

failure-stays_example :
    (load_all_protocols (run calls (all_fails answered))).0 ≡ shared AllPromise.failed
unfolding load_protocol load_succeeds
failure-stays_example = failure-stays calls answered refl

abbrev steps : List Participants
steps =
    record { sender = "Client Application"; receiver = "Authorization Server" }
    ∷ record { sender = "Client"; receiver = "Key  Vault" }
    ∷ []

actor_names :
    map (λ (a : Actor). a.name) (get_actors_for_flow steps)
    ≡ "Client Application" ∷ "Authorization Server" ∷ "Key Vault" ∷ []
unfolding get_actors_for_flow ascii split join
actor_names = refl

get_actors_for_flow-distinct_example : are_distinct (ids_of (get_actors_for_flow steps)) ≡ true
get_actors_for_flow-distinct_example = get_actors_for_flow-distinct steps
