-- ===== src/Registry/Actors.antt =====
-- `getActorsForFlow` of registry.ts, with `STANDARD_ACTORS` of types.ts.
pub mod Distinct
use mathlib.Core.List.{map}
use protocol_lens.Prelude.{
  String, Bool, true, false, Option, none, some, List, [], ◌∷◌, ◌++◌, str_eq, split, join,
  if◌then◌else◌,
}
use protocol_lens.Registry.Text.{to_lower, capitalized, join_words}

pub data ActorType : Type 0 where
  client user identity_provider resource server : ActorType

pub record Actor : Type 0 where
  pub id : String
  pub name : String
  pub type : ActorType
  pub description : Option String
  pub icon : String

abbrev standard : String → String → ActorType → String → String → Actor
standard id name type description icon = record {
  id = id;
  name = name;
  type = type;
  description = some description;
  icon = icon;
}

-- `STANDARD_ACTORS`
abbrev pub standard_actors : List Actor
standard_actors =
    standard "client" "Client Application" client "The application requesting access" "monitor"
    ∷ standard "user" "Resource Owner" user "The end user who owns the resources" "user"
    ∷ standard "auth_server" "Authorization Server" identity_provider
        "The server issuing access tokens" "shield"
    ∷ standard "resource_server" "Resource Server" resource "The server hosting protected resources"
        "database"
    ∷ standard "idp" "Identity Provider" identity_provider "OpenID Provider authenticating users"
        "key"
    ∷ standard "scim_server" "SCIM Server" resource "SCIM 2.0 server for user/group provisioning"
        "users"
    ∷ []

-- `standardMappings`
abbrev pub standard_mappings : List (String × String)
standard_mappings =
    ("client", "client")
    ∷ ("client_application", "client")
    ∷ ("application", "client")
    ∷ ("user", "user")
    ∷ ("resource_owner", "user")
    ∷ ("end_user", "user")
    ∷ ("authorization_server", "auth_server")
    ∷ ("auth_server", "auth_server")
    ∷ ("openid_provider", "idp")
    ∷ ("identity_provider", "idp")
    ∷ ("idp", "idp")
    ∷ ("resource_server", "resource_server")
    ∷ ("api", "resource_server")
    ∷ ("scim_server", "scim_server")
    ∷ ("scim_client", "idp")
    ∷ ("provisioning_client", "idp")
    ∷ []

unfoldable pub mapped : String → List (String × String) → Option String
mapped id [] = none
mapped id ((k, v) ∷ rest) = let later = mapped id rest in if str_eq k id then some v else later

unfoldable pub find_actor : String → List Actor → Option Actor
find_actor id [] = none
find_actor id (a ∷ rest) =
    let later = find_actor id rest in if str_eq a.id id then some a else later

abbrev pub then_actor : Option String → Option Actor
then_actor none = none
then_actor (some id) = find_actor id standard_actors

-- `STANDARD_ACTORS[standardMappings[id]]`
unfoldable pub standard_actor : String → Option Actor
unfolding mapped find_actor
standard_actor id = then_actor (mapped id standard_mappings)

unfoldable pub custom_actor : String → Actor
unfolding split capitalized join
custom_actor id = record {
  id = id;
  name = join " " (map capitalized (split b'_' id));
  type = server;
  description = none;
  icon = "server";
}

abbrev pub holds : String → List String → Bool
holds id [] = false
holds id (k ∷ ks) = if str_eq k id then true else holds id ks

abbrev pub ids_of : List Actor → List String
ids_of [] = []
ids_of (a ∷ rest) = a.id ∷ ids_of rest

abbrev pub add_found : Option Actor → String → List Actor → List Actor
add_found none id actors = actors ++ (custom_actor id ∷ [])
add_found (some a) id actors = if holds a.id (ids_of actors) then actors else actors ++ (a ∷ [])

-- `actorIds.forEach(…)`
unfoldable pub add_actors : List String → List Actor → List Actor
unfolding standard_actor custom_actor
add_actors [] actors = actors
add_actors (id ∷ ids) actors = add_actors ids (add_found (standard_actor id) id actors)

-- The participants of a step.
pub record Participants : Type 0 where
  pub sender : String
  pub receiver : String

abbrev pub actor_id : String → String
actor_id name = join_words (to_lower name)

-- `actorIds.add(id)`
unfoldable pub add_id : String → List String → List String
add_id id ids = if holds id ids then ids else ids ++ (id ∷ [])

unfoldable pub actor_ids : List Participants → List String → List String
unfolding add_id join_words to_lower
actor_ids [] ids = ids
actor_ids (p ∷ ps) ids =
    actor_ids ps (add_id (actor_id p.receiver) (add_id (actor_id p.sender) ids))

unfoldable pub get_actors_for_flow : List Participants → List Actor
unfolding add_actors actor_ids
get_actors_for_flow steps = add_actors (actor_ids steps []) []
