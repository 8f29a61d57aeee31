-- ===== src/Registry.antt =====
-- The cache of `FlowRegistry`: frontend/src/lookingglass/registry.ts. What a load brings is a
-- parameter; a load in flight is named by its protocol.
pub mod Loads
pub mod Failure
pub mod Text
pub mod Actors
use protocol_lens.Prelude.{
  ℕ, suc, String, Bool, true, false, Option, none, some, List, [], ◌∷◌, ◌++◌, str_eq, if◌then◌else◌,
}

-- `allProtocolsPromise`, once it is there
pub data AllPromise : Type 0 where
  waiting failed : AllPromise

-- `loading` has the ids whose promise other callers join, `flights` the loads that have not settled.
pub record Registry (A : Type 0) : Type 0 where
  pub protocols : List (String × A)
  pub loading : List String
  pub flights : List String
  pub all_protocols_loaded : Bool
  pub all_protocols_promise : Option AllPromise

abbrev pub empty_registry : {A : Type 0} → Registry A
empty_registry = record {
  protocols = [];
  loading = [];
  flights = [];
  all_protocols_loaded = false;
  all_protocols_promise = none;
}

-- What a call gets: a cached protocol, the promise of a load in flight, or that of a new load.
pub data Answer (A : Type 0) : Type 0 where
  cached : A → Answer A
  joined began : Answer A

-- `loadAllProtocols`
pub data AllAnswer (A : Type 0) : Type 0 where
  values : List A → AllAnswer A
  shared : AllPromise → AllAnswer A
  requested : AllAnswer A

abbrev pub contains : String → List String → Bool
contains id [] = false
contains id (k ∷ ks) = if str_eq k id then true else contains id ks

unfoldable pub delete : String → List String → List String
delete id [] = []
delete id (k ∷ ks) = let rest = delete id ks in if str_eq k id then ks else k ∷ rest

module _ {A : Type 0} where
  unfoldable pub get : String → List (String × A) → Option A
  get id [] = none
  get id ((k, a) ∷ rest) = let later = get id rest in if str_eq k id then some a else later

  -- `Map.set`
  unfoldable pub set : String → A → List (String × A) → List (String × A)
  set id a [] = (id, a) ∷ []
  set id a ((k, b) ∷ rest) =
      let later = set id a rest in if str_eq k id then (k, a) ∷ rest else (k, b) ∷ later

  abbrev pub values_of : List (String × A) → List A
  values_of [] = []
  values_of ((k, a) ∷ rest) = a ∷ values_of rest

  abbrev pub start_if : Bool → String → Registry A → Answer A × Registry A
  start_if true id r = (joined, r)
  start_if false id r =
      (began, record r { loading = r.loading ++ (id ∷ []); flights = r.flights ++ (id ∷ []) })

  abbrev pub load_unless : Option A → String → Registry A → Answer A × Registry A
  load_unless (some a) id r = (cached a, r)
  load_unless none id r = start_if (contains id r.loading) id r

  -- `loadProtocol`, up to its `await`
  unfoldable pub load_protocol : String → Registry A → Answer A × Registry A
  unfolding get
  load_protocol id r = load_unless (get id r.protocols) id r

  -- A load that succeeds: the protocol is cached and the promise forgotten.
  unfoldable pub load_succeeds : String → A → Registry A → Registry A
  unfolding set delete
  load_succeeds id a r = record r {
    protocols = set id a r.protocols;
    loading = delete id r.loading;
    flights = delete id r.flights;
  }

  -- A load that fails: only the promise is forgotten.
  unfoldable pub load_fails : String → Registry A → Registry A
  unfolding delete
  load_fails id r = record r { loading = delete id r.loading; flights = delete id r.flights }

  abbrev pub share : Option AllPromise → Registry A → AllAnswer A × Registry A
  share (some promise) r = (shared promise, r)
  share none r = (requested, record r { all_protocols_promise = some waiting })

  -- `loadAllProtocols`
  unfoldable pub load_all_protocols : Registry A → AllAnswer A × Registry A
  load_all_protocols r =
      if r.all_protocols_loaded
      then (values (values_of r.protocols), r)
      else share r.all_protocols_promise r

  -- `_loadAllProtocols` ends: with success the flag is set, an error leaves the rejected promise.
  unfoldable pub all_succeeds : Registry A → Registry A
  all_succeeds r = record r { all_protocols_loaded = true }

  unfoldable pub all_fails : Registry A → Registry A
  all_fails r = record r { all_protocols_promise = some failed }

  -- `clearCache`; loads in flight go on.
  unfoldable pub clear_cache : Registry A → Registry A
  clear_cache r = record empty_registry { flights = r.flights }
