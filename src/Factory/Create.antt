-- ===== src/Factory/Create.antt =====
-- `createFlowExecutor`, `getFlowInfo`, `listSupportedFlows` and `getFlowRequirements`. For
-- `createFlowExecutor`, a flow id that names a member of `Object.prototype` is left out.
use mathlib.Core.List.{map}
use text.Mathlib.Text
use protocol_lens.Prelude.{
  String, Bool, true, false, ◌&&◌, ◌||◌, Option, none, some, List, [], ◌∷◌, str_eq, if◌then◌else◌,
  includes,
}
use protocol_lens.Flow.State.{Config}
use protocol_lens.Flows.Grant.{present, is_present}
use protocol_lens.Factory.{
  ExecutorClass, refresh_token, resource_owner, FlowOptions, FlowEntry, flow_executor_map,
}

pub record FactoryConfig : Type 0 where
  pub protocol_base_url : String
  pub client_id : String
  pub client_secret : Option String
  pub redirect_uri : Option String
  pub scopes : List String
  pub refresh_token : Option String
  pub username : Option String
  pub password : Option String
  pub bearer_token : Option String

-- `fullConfig`: the base configuration, the members of `additionalConfig`, and what single flows add.
pub record FullConfig : Type 0 where
  pub base : Config
  pub options : FlowOptions
  pub refresh_token : Option String
  pub username : Option String
  pub password : Option String
  pub bearer_token : Option String

-- An executor: its class and the configuration handed to the constructor.
pub record Executor : Type 0 where
  pub executor_class : ExecutorClass
  pub config : FullConfig

-- `FLOW_EXECUTOR_MAP[flowId]`
unfoldable pub find : String → List (String × FlowEntry) → Option FlowEntry
find id [] = none
find id ((k, e) ∷ rest) = let later = find id rest in if str_eq k id then some e else later

-- `text || fallback`
abbrev or_text : Option String → String → Option String
or_text o fallback = elim (present o) [ none ↦ some fallback | some s ↦ some s ]

abbrev starts_saml : String → Bool
starts_saml = λ id. Text.starts_with id "saml-"

abbrev is_spiffe : String → Bool
is_spiffe id =
    includes id "svid"
    || includes id "mtls"
    || includes id "rotation"
    || includes id "attestation"
    || includes id "bundle"

abbrev is_scim : String → Bool
is_scim id =
    str_eq id "user-lifecycle"
    || str_eq id "group-membership"
    || str_eq id "user-discovery"
    || str_eq id "schema-discovery"

abbrev pub only_if : Bool → Option String → Option String
only_if true o = present o
only_if false o = none

abbrev spiffe_options : Bool → FlowOptions → FlowOptions
spiffe_options false o = o
spiffe_options true o = record o { trust_domain = or_text o.trust_domain "protocolsoup.com" }

abbrev scim_options : Bool → FlowOptions → FlowOptions
scim_options false o = o
scim_options true o = record o { scim_base_url = or_text o.scim_base_url "/scim/v2" }

-- The configuration that `createFlowExecutor` builds.
unfoldable pub full_config : String → FactoryConfig → FlowEntry → FullConfig
unfolding includes
full_config id c e = record {
  base = record {
    base_url = c.protocol_base_url;
    client_id = c.client_id;
    client_secret = c.client_secret;
    redirect_uri = c.redirect_uri;
    scopes = if starts_saml id then [] else c.scopes;
    extra_params = none;
  };
  options = scim_options (is_scim id) (spiffe_options (is_spiffe id) e.additional_config);
  refresh_token = only_if (str_eq id "refresh-token") c.refresh_token;
  username =
      only_if (str_eq id "password" && is_present c.username && is_present c.password) c.username;
  password =
      only_if (str_eq id "password" && is_present c.username && is_present c.password) c.password;
  bearer_token = only_if (is_scim id) c.bearer_token;
}

-- The checks of the constructors: those of `RefreshTokenExecutor` and `ResourceOwnerExecutor` throw.
unfoldable pub constructs : ExecutorClass → FullConfig → Bool
constructs refresh_token c = is_present c.refresh_token
constructs resource_owner c = is_present c.username && is_present c.password
constructs _ c = true

unfoldable pub construct : ExecutorClass → FullConfig → Option Executor
unfolding constructs
construct k c = if constructs k c then some (record { executor_class = k; config = c }) else none

abbrev pub create_from : String → FactoryConfig → Option FlowEntry → Option Executor
create_from id c none = none
create_from id c (some e) = construct e.executor_class (full_config id c e)

-- `createFlowExecutor`; `none` is `null`.
unfoldable pub create_flow_executor : String → FactoryConfig → Option Executor
unfolding find full_config construct
create_flow_executor id c = create_from id c (find id flow_executor_map)

-- A member that is `undefined` is `none`.
pub record FlowInfo : Type 0 where
  pub supported : Bool
  pub description : Option String
  pub rfc_reference : Option String
  pub requires_user_interaction : Option Bool

-- What an object literal inherits.
abbrev prototype_members : List String
prototype_members =
    "constructor" ∷ "hasOwnProperty" ∷ "isPrototypeOf" ∷ "propertyIsEnumerable" ∷ "toLocaleString"
    ∷ "toString" ∷ "valueOf" ∷ "__proto__" ∷ "__defineGetter__" ∷ "__defineSetter__"
    ∷ "__lookupGetter__" ∷ "__lookupSetter__" ∷ []

abbrev is_inherited : String → List String → Bool
is_inherited id [] = false
is_inherited id (name ∷ names) = if str_eq name id then true else is_inherited id names

-- An inherited member has none of the members that are read.
abbrev pub info_of : String → Option FlowEntry → Option FlowInfo
info_of id none =
    if is_inherited id prototype_members
    then some (record {
      supported = true;
      description = none;
      rfc_reference = none;
      requires_user_interaction = none;
    })
    else none
info_of id (some e) = some (record {
  supported = true;
  description = some e.description;
  rfc_reference = some e.rfc_reference;
  requires_user_interaction = some e.requires_user_interaction;
})

unfoldable pub get_flow_info : String → Option FlowInfo
unfolding find
get_flow_info id = info_of id (find id flow_executor_map)

unfoldable pub list_supported_flows : List String
list_supported_flows = map (λ entry. entry.0) flow_executor_map

pub record FlowRequirements : Type 0 where
  pub requires_client_secret : Bool
  pub requires_refresh_token : Bool
  pub requires_credentials : Bool
  pub requires_session_info : Option Bool

abbrev requirements : Bool → Bool → Bool → Option Bool → FlowRequirements
requirements secret token credentials session = record {
  requires_client_secret = secret;
  requires_refresh_token = token;
  requires_credentials = credentials;
  requires_session_info = session;
}

unfoldable pub get_flow_requirements : String → FlowRequirements
get_flow_requirements id =
    if str_eq id "client-credentials"
    then requirements true false false none
    else if str_eq id "refresh-token"
    then requirements false true false none
    else if str_eq id "password"
    then requirements false false true none
    else if str_eq id "saml-logout" || str_eq id "saml-logout-redirect"
    then requirements false false false (some true)
    else requirements false false false none
