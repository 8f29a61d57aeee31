-- ===== src/Hooks/Mapping.antt =====
-- What the mapping of flow ids of hooks.ts keeps.
use text.Mathlib.Text
use protocol_lens.Prelude.{
  String, Bool, true, false, not, ◌&&◌, Option, none, some, List, [], ◌∷◌, str_eq, ◌≡◌, ◌≢◌, refl,
  sym, subst, ◌∙◌, arith, ◌⊎◌, inl, inr, Bool-cases, drop_text, eq_iff,
}
use protocol_lens.Flows.Grant.{present}
use protocol_lens.Factory.Supported.{has_text}
use protocol_lens.Factory.Create.{list_supported_flows}
use protocol_lens.Hooks.Normal.{normalized, normalized-normalized, normalized-not_empty}
use protocol_lens.Hooks.FlowIds.{
  Table, lookup, Protocol, oidc, saml, spiffe, scim, other, prefixed_table, oidc_table, saml_table,
  spiffe_table, scim_table, oauth_table, or_next, prefixed, in_tables, map_normal, map_present,
  map_flow_id, protocol_of,
}

-- A test that every target of a table passes.
all_targets : (String → Bool) → Table → Bool
all_targets b [] = true
all_targets b ((k, v) ∷ rest) = let others = all_targets b rest in b v && others

module _ (b : String → Bool) where
  lookup-all_targets :
      (t : Table) (id found : String)
      → all_targets b t ≡ true
      → lookup id t ≡ some found
      → b found ≡ true
  unfolding lookup all_targets
  lookup-all_targets [] id found h e = absurd (ground arith)
  lookup-all_targets ((k, v) ∷ rest) id found h e =
      ground (arith, h, e, lookup-all_targets rest id found)

  -- A table gives one of its targets, or leaves the rest to decide.
  next-cases :
      (o : Option String) (next : String)
      → ((found : String) → o ≡ some found → b found ≡ true)
      → (or_next o next ≡ next) ⊎ (b (or_next o next) ≡ true)
  next-cases none next h = inl refl
  next-cases (some found) next h = inr (h found refl)

  chain :
      (x y z : String) → (x ≡ y) ⊎ (b x ≡ true) → (y ≡ z) ⊎ (b y ≡ true) → (x ≡ z) ⊎ (b x ≡ true)
  chain x y z (inl e) (inl f) = inl (e ∙ f)
  chain x y z (inl e) (inr h) = inr (rw e h)
  chain x y z (inr h) k = inr h

  table-cases :
      (t : Table) (id next : String)
      → all_targets b t ≡ true
      → (or_next (lookup id t) next ≡ next) ⊎ (b (or_next (lookup id t) next) ≡ true)
  table-cases t id next h = next-cases (lookup id t) next (λ found. lookup-all_targets t id found h)

  found_prefixed :
      (id found : String)
      → all_targets b prefixed_table ≡ true
      → prefixed id ≡ some found
      → b found ≡ true
  unfolding prefixed
  found_prefixed id found h e = elim (Bool-cases (Text.starts_with id "oidc-")) [
    | inl starts ↦ lookup-all_targets prefixed_table (drop_text 5 id) found h (rw starts at e)
    | inr differs ↦ absurd (let e' = rw differs at e in ground (arith, e'))
  ]

-- The tables that a protocol's ids are looked up in, in this order.
abbrev tables : Protocol → List Table
tables oidc = oidc_table ∷ oauth_table ∷ []
tables saml = saml_table ∷ oauth_table ∷ []
tables spiffe = spiffe_table ∷ []
tables scim = scim_table ∷ []
tables other = oauth_table ∷ []

all_tables : (String → Bool) → List Table → Bool
all_tables b [] = true
all_tables b (t ∷ ts) = let others = all_tables b ts in all_targets b t && others

first_entry : String → List Table → String
first_entry id [] = id
first_entry id (t ∷ ts) = let later = first_entry id ts in or_next (lookup id t) later

in_tables-first_entry : (p : Protocol) (id : String) → in_tables p id ≡ first_entry id (tables p)
unfolding in_tables first_entry
in_tables-first_entry oidc id = refl
in_tables-first_entry saml id = refl
in_tables-first_entry spiffe id = refl
in_tables-first_entry scim id = refl
in_tables-first_entry other id = refl

both : (a b : Bool) → (a && b) ≡ true → (a ≡ true) × (b ≡ true)
both true b h = (refl, h)
both false b h = absurd (ground arith)

first_entry-cases :
    (b : String → Bool) (ts : List Table) (id : String)
    → all_tables b ts ≡ true
    → (first_entry id ts ≡ id) ⊎ (b (first_entry id ts) ≡ true)
unfolding first_entry all_tables
first_entry-cases b [] id h = inl refl
first_entry-cases b (t ∷ ts) id h =
    let (h1, h2) = both (all_targets b t) (all_tables b ts) h in
    chain b _ (first_entry id ts) id (table-cases b t id (first_entry id ts) h1)
      (first_entry-cases b ts id h2)

-- The mapping leaves a normalized id alone, or gives a target of the protocol's tables.
map_normal-cases :
    (b : String → Bool) (p : Protocol) (id : String)
    → all_targets b prefixed_table ≡ true
    → all_tables b (tables p) ≡ true
    → (map_normal p id ≡ id) ⊎ (b (map_normal p id) ≡ true)
unfolding map_normal
map_normal-cases b p id h k =
    chain b _ (in_tables p id) id
      (next-cases b (prefixed id) (in_tables p id) (λ found. found_prefixed b id found h))
      (rw (in_tables-first_entry p id) (first_entry-cases b (tables p) id k))

abbrev pub is_listed : String → Bool
is_listed id = has_text id list_supported_flows

abbrev HasLiveTables : Protocol → Type 0
HasLiveTables spiffe = ⊥
HasLiveTables scim = ⊥
HasLiveTables _ = Unit

live_tables : (p : Protocol) → HasLiveTables p → all_tables is_listed (tables p) ≡ true
unfolding all_tables all_targets list_supported_flows
live_tables oidc h = refl
live_tables saml h = refl
live_tables spiffe h = absurd h
live_tables scim h = absurd h
live_tables other h = refl

live_prefixed : all_targets is_listed prefixed_table ≡ true
unfolding all_targets list_supported_flows
live_prefixed = refl

pub present_full : (s : String) → s ≢ "" → present (some s) ≡ some s
present_full s h = elim (Bool-cases (str_eq s "")) [
  | inl empty ↦ absurd (h ((eq_iff s "").0 empty))
  | inr full ↦ rw full refl
]

-- Outside SPIFFE and SCIM, `mapFlowId` gives the normalized id itself, or a flow that
-- `listSupportedFlows` lists; it gives no id only where the backend's id is missing or empty.
pub map_flow_id-listed :
    (protocol : Option String) (id : String)
    → HasLiveTables (protocol_of protocol)
    → id ≢ ""
    → (mapped : String) × (map_flow_id protocol (some id) ≡ some mapped)
      × ((mapped ≡ normalized id) ⊎ (is_listed mapped ≡ true))
unfolding map_flow_id
map_flow_id-listed protocol id h full =
    let p = protocol_of protocol in
    (
      map_normal p (normalized id),
      rw (present_full id full) refl,
      map_normal-cases is_listed p (normalized id) live_prefixed (live_tables p h),
    )

-- An id that the mapping and the normalization leave alone.
abbrev is_stable : Protocol → String → Bool
is_stable p id = str_eq (map_normal p id) id && (str_eq (normalized id) id && not (str_eq id ""))

abbrev IsDirect : Protocol → Type 0
IsDirect oidc = ⊥
IsDirect _ = Unit

stable_prefixed : (p : Protocol) → all_targets (is_stable p) prefixed_table ≡ true
unfolding all_targets map_normal normalized
stable_prefixed p = refl

stable_tables : (p : Protocol) → IsDirect p → all_tables (is_stable p) (tables p) ≡ true
unfolding all_tables all_targets map_normal normalized
stable_tables oidc h = absurd h
stable_tables saml h = refl
stable_tables spiffe h = refl
stable_tables scim h = refl
stable_tables other h = refl

abbrev IsStable : Protocol → String → Type 0
IsStable p id = (map_normal p id ≡ id) × (normalized id ≡ id) × (id ≢ "")

not_empty : (s : String) → not (str_eq s "") ≡ true → s ≢ ""
not_empty s h e = absurd (ground (arith, h, (eq_iff s "").1 e))

stable : (p : Protocol) (id : String) → is_stable p id ≡ true → IsStable p id
stable p id h =
    let (h1, h2) = both (str_eq (map_normal p id) id) _ h in
    let (h3, h4) = both (str_eq (normalized id) id) _ h2 in
    ((eq_iff (map_normal p id) id).0 h1, (eq_iff (normalized id) id).0 h3, not_empty id h4)

map_normal-IsStable :
    (p : Protocol) (id : String)
    → IsDirect p
    → normalized id ≡ id
    → id ≢ ""
    → IsStable p (map_normal p id)
map_normal-IsStable p id direct normal full =
    elim (map_normal-cases (is_stable p) p id (stable_prefixed p) (stable_tables p direct)) [
      | inl same ↦ subst (IsStable p) (sym same) (same, normal, full)
      | inr target ↦ stable p (map_normal p id) target
    ]

-- Outside OpenID Connect, mapping a flow id that `mapFlowId` has given leaves it as it is.
pub map_flow_id-stable :
    (protocol : Option String) (id : Option String)
    → IsDirect (protocol_of protocol)
    → map_flow_id protocol (map_flow_id protocol id) ≡ map_flow_id protocol id
unfolding map_flow_id
map_flow_id-stable protocol id direct = mapped_again (present id) (present-not_empty id)
  where
    present-not_empty : (o : Option String) (s : String) → present o ≡ some s → s ≢ ""
    present-not_empty none s e = absurd (ground arith)
    present-not_empty (some t) s e = λ empty. ground (arith, e, (eq_iff t "").1, empty)

    mapped_again :
        (o : Option String)
        → ((s : String) → o ≡ some s → s ≢ "")
        → map_present protocol (present (map_present protocol o)) ≡ map_present protocol o
    mapped_again none h = refl
    mapped_again (some s) h =
        let p = protocol_of protocol in
        let (same, normal, full) =
          map_normal-IsStable p (normalized s) direct (normalized-normalized s)
            (normalized-not_empty s (h s refl)) in
        rw (present_full _ full, normal, same) refl
