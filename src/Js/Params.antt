-- ===== src/Js/Params.antt =====
-- Names with texts: an object of strings, and `URLSearchParams`.
use protocol_lens.Prelude.{
  String, Option, none, some, List, [], ◌∷◌, str_eq, if◌then◌else◌, ◌≡◌, refl, arith, eq_iff,
}

abbrev pub Params : Type 0
Params = List (String × String)

-- `params.get(key)`, `o[key]`
unfoldable pub get : String → Params → Option String
get k [] = none
get k ((j, v) ∷ ps) = if str_eq j k then some v else get k ps

unfoldable pub delete : String → Params → Params
delete k [] = []
delete k ((j, v) ∷ ps) = let rest = delete k ps in if str_eq j k then rest else (j, v) ∷ rest

-- `params.set(key, value)`, `o[key] = value`: the first entry of the name is replaced and the others
-- removed; a new name goes to the end.
unfoldable pub set : String → String → Params → Params
unfolding delete
set k v [] = (k, v) ∷ []
set k v ((j, w) ∷ ps) = if str_eq j k then (j, v) ∷ delete k ps else (j, w) ∷ set k v ps

-- `for (const [key, value] of Object.entries(extra)) params.set(key, value)`
unfoldable pub set_all : Params → Params → Params
unfolding set
set_all [] ps = ps
set_all ((k, v) ∷ extra) ps = set_all extra (set k v ps)

pub get-delete :
    (k j : String) (ps : Params) → get j (delete k ps) ≡ (if str_eq k j then none else get j ps)
unfolding get delete
get-delete k j [] = ground arith
get-delete k j ((i, v) ∷ ps) = ground (arith, get-delete k j ps, eq_iff i k, eq_iff i j, eq_iff k j)

pub get-set :
    (k j v : String) (ps : Params) → get j (set k v ps) ≡ (if str_eq k j then some v else get j ps)
unfolding get set
get-set k j v [] = refl
get-set k j v ((i, w) ∷ ps) =
    ground (arith, get-set k j v ps, get-delete k j ps, eq_iff i k, eq_iff i j, eq_iff k j)

-- A name that `extra` lacks keeps its entry.
pub get-set_all :
    (j : String) (extra ps : Params) → get j extra ≡ none → get j (set_all extra ps) ≡ get j ps
unfolding get set_all
get-set_all j [] ps h = refl
get-set_all j ((k, v) ∷ extra) ps h =
    ground (arith, get-set_all j extra (set k v ps), get-set k j v ps)
