-- ===== src/Flows/Grant/Forms.antt =====
-- The optional fields of request forms.
use protocol_lens.Prelude.{
  String, false, Option, none, some, List, [], ◌∷◌, str_eq, join, ◌≡◌, refl, arith, eq_iff,
}
use protocol_lens.Js.Params
use protocol_lens.Js.Params.{Params, get-set}
use protocol_lens.Flows.Grant.{present, set_present, set_scope}

pub set_present-same :
    (k : String) (o : Option String) (ps : Params)
    → Params.get k ps ≡ none
    → Params.get k (set_present k o ps) ≡ present o
set_present-same k none ps h = h
set_present-same k (some s) ps h = ground (arith, h, get-set k k s ps, eq_iff k k)

pub set_present-other :
    (k j : String) (o : Option String) (ps : Params)
    → str_eq k j ≡ false
    → Params.get j (set_present k o ps) ≡ Params.get j ps
set_present-other k j none ps h = refl
set_present-other k j (some s) ps h = ground (arith, h, get-set k j s ps)

-- The scope of a form: the scopes with spaces between them, none where there are none.
abbrev pub scope_of : List String → Option String
scope_of [] = none
scope_of (s ∷ ss) = some (join " " (s ∷ ss))

pub set_scope-same :
    (ss : List String) (ps : Params)
    → Params.get "scope" ps ≡ none
    → Params.get "scope" (set_scope ss ps) ≡ scope_of ss
set_scope-same [] ps h = h
set_scope-same (s ∷ ss) ps h = get-set "scope" "scope" (join " " (s ∷ ss)) ps

pub set_scope-other :
    (j : String) (ss : List String) (ps : Params)
    → str_eq "scope" j ≡ false
    → Params.get j (set_scope ss ps) ≡ Params.get j ps
set_scope-other j [] ps h = refl
set_scope-other j (s ∷ ss) ps h = ground (arith, h, get-set "scope" j (join " " (s ∷ ss)) ps)
