-- ===== src/Factory/Supported.antt =====
-- The flows of executor-factory.ts and their requirements.
use mathlib.Core.List.{map}
use protocol_lens.Prelude.{
  String, Bool, true, false, not, ◌&&◌, ◌||◌, Option, none, some, List, [], ◌∷◌, str_eq,
  if◌then◌else◌, ◌≡◌, refl, sym, subst, ap, ◌∙◌, arith, eq_iff, Bool-cases, inl, inr,
}
use protocol_lens.Flows.Grant.{present, is_present}
use protocol_lens.Factory.{
  ExecutorClass, refresh_token, resource_owner, FlowEntry, flow_executor_map,
}
use protocol_lens.Factory.Create.{
  FactoryConfig, FullConfig, Executor, find, full_config, constructs, construct, only_if,
  create_from, create_flow_executor, list_supported_flows, get_flow_requirements,
}

abbrev pub is_some {ℓ} : {A : Type ℓ} → Option A → Bool
is_some none = false
is_some (some a) = true

abbrev pub has_text : String → List String → Bool
has_text s [] = false
has_text s (t ∷ ts) = if str_eq t s then true else has_text s ts

find-listed :
    (id : String) (entries : List (String × FlowEntry))
    → is_some (find id entries) ≡ has_text id (map (λ entry. entry.0) entries)
unfolding find
find-listed id [] = refl
find-listed id ((k, e) ∷ rest) = ground (arith, find-listed id rest)

-- The requirements of the flow that its executor's constructor checks are met: a refresh token, or a
-- user name and a password. The required client secret is checked by `execute` only.
abbrev pub checked_requirements_met : String → FactoryConfig → Bool
checked_requirements_met id c =
    (not (get_flow_requirements id).requires_refresh_token || is_present c.refresh_token)
    && (not (get_flow_requirements id).requires_credentials
        || (is_present c.username && is_present c.password))

-- The classes whose constructors check their configuration stand at one flow id each.
placed : ExecutorClass → String → Bool
placed refresh_token id = str_eq id "refresh-token"
placed resource_owner id = str_eq id "password"
placed _ id = not (str_eq id "refresh-token") && not (str_eq id "password")

all_placed : List (String × FlowEntry) → Bool
all_placed [] = true
all_placed ((k, e) ∷ rest) = let others = all_placed rest in placed e.executor_class k && others

map_placed : all_placed flow_executor_map ≡ true
unfolding all_placed placed
map_placed = refl

abbrev PlacedAt : String → Option FlowEntry → Type 0
PlacedAt k none = Unit
PlacedAt k (some e) = placed e.executor_class k ≡ true

first_true : (a b : Bool) → (a && b) ≡ true → a ≡ true
first_true true b h = refl
first_true false b h = h

find-placed :
    (id : String) (entries : List (String × FlowEntry)) (e : FlowEntry)
    → all_placed entries ≡ true
    → find id entries ≡ some e
    → placed e.executor_class id ≡ true
unfolding find all_placed
find-placed id [] e h f = ground arith
find-placed id ((k, d) ∷ rest) e h f = elim (Bool-cases (str_eq k id)) [
  | inl same ↦
      subst (λ i. placed e.executor_class i ≡ true) ((eq_iff k id).0 same)
        (subst (PlacedAt k) (rw same at f)
          (first_true (placed d.executor_class k) (all_placed rest) h))
  | inr other ↦ find-placed id rest e (ground (arith, h)) (rw other at f)
]

present-present : (o : Option String) → is_present (present o) ≡ is_present o
present-present none = refl
present-present (some s) = ground arith

both_present :
    (u p : Option String)
    → (is_present (only_if (is_present u && is_present p) u)
        && is_present (only_if (is_present u && is_present p) p))
      ≡ (is_present u && is_present p)
both_present none p = refl
both_present (some s) none = ground arith
both_present (some s) (some t) = ground arith

constructs-met :
    (k : ExecutorClass) (id : String) (c : FactoryConfig) (e : FlowEntry)
    → placed k id ≡ true
    → constructs k (full_config id c e) ≡ checked_requirements_met id c
unfolding constructs full_config get_flow_requirements placed
constructs-met refresh_token id c e h =
    subst (λ i. constructs refresh_token (full_config i c e) ≡ checked_requirements_met i c)
      (sym ((eq_iff id "refresh-token").0 h)) (ground (arith, present-present c.refresh_token))
constructs-met resource_owner id c e h =
    subst (λ i. constructs resource_owner (full_config i c e) ≡ checked_requirements_met i c)
      (sym ((eq_iff id "password").0 h)) (both_present c.username c.password)
constructs-met _ id c e h = ground (arith, h)

created :
    (id : String) (c : FactoryConfig) (o : Option FlowEntry)
    → find id flow_executor_map ≡ o
    → is_some (create_from id c o) ≡ (is_some o && checked_requirements_met id c)
unfolding construct
created id c none found = refl
created id c (some e) found =
    constructed (constructs e.executor_class (full_config id c e)) (full_config id c e)
    ∙ constructs-met e.executor_class id c e (find-placed id flow_executor_map e map_placed found)
  where
    constructed :
        (b : Bool) (config : FullConfig)
        → is_some {A = Executor} (
            if b
            then some (record { executor_class = e.executor_class; config = config })
            else none)
          ≡ b
    constructed true config = refl
    constructed false config = refl

-- `createFlowExecutor` returns an executor exactly for the flows that `listSupportedFlows` lists
-- whose requirements of a refresh token or of a user name and a password, as `getFlowRequirements`
-- gives them, are met by values that are not empty; in all other cases it returns null.
pub create_flow_executor-listed :
    (id : String) (c : FactoryConfig)
    → is_some (create_flow_executor id c)
      ≡ (has_text id list_supported_flows && checked_requirements_met id c)
unfolding create_flow_executor list_supported_flows
create_flow_executor-listed id c =
    created id c (find id flow_executor_map) refl
    ∙ ap (λ b. b && checked_requirements_met id c) (find-listed id flow_executor_map)
