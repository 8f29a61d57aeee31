-- ===== src/Js/Value.antt =====
-- Values of type `unknown`: what `JSON.parse` returns, and the payloads of timeline events.
-- Numbers are integers; `negsuc n` is -(n + 1). Fractional numbers are left out.
use protocol_lens.Prelude.{
  ℕ, String, Bool, true, false, not, Option, none, some, List, [], ◌∷◌, str_eq, if◌then◌else◌, ◌==◌,
}

mutual
  pub data Value : Type 0 where
    undefined : Value
    null : Value
    bool : Bool → Value
    str : String → Value
    num : ℕ → Value
    negsuc : ℕ → Value
    obj : Fields → Value
    arr : Items → Value

  pub data Fields : Type 0 where
    end : Fields
    field : String → Value → Fields → Fields

  pub data Items : Type 0 where
    nil : Items
    cons : Value → Items → Items

-- `o[key]` on an object: the last field of that name wins, as in `JSON.parse`.
unfoldable pub get_field : String → Fields → Value
get_field k end = undefined
get_field k (field j v fs) =
    let later = get_field k fs in
    elim later [ undefined ↦ if str_eq j k then v else undefined | other ↦ other ]

-- `v.key`: `none` is the TypeError that a property of `null` or `undefined` raises. The keys that
-- the code reads are no properties of strings, numbers, Booleans or arrays.
unfoldable pub get_prop : Value → String → Option Value
unfolding get_field
get_prop undefined k = none
get_prop null k = none
get_prop (obj fs) k = some (get_field k fs)
get_prop _ k = some undefined

-- `!!v`
unfoldable pub truthy : Value → Bool
truthy undefined = false
truthy null = false
truthy (bool b) = b
truthy (num n) = not (n == 0)
truthy (negsuc n) = true
truthy (str s) = not (str_eq s "")
truthy (arr xs) = true
truthy (obj fs) = true

-- `v || w`
unfoldable pub or_else : Value → Value → Value
unfolding truthy
or_else v w = if truthy v then v else w

-- `typeof v === 'string'` and the text, `typeof v === 'number'` and the number.
unfoldable pub as_string : Value → Option String
as_string (str s) = some s
as_string _ = none

abbrev pub strings : List String → Items
strings [] = nil
strings (s ∷ ss) = cons (str s) (strings ss)

-- A text that may be absent, as a value.
abbrev pub opt_str : Option String → Value
opt_str none = undefined
opt_str (some s) = str s

-- `Object.keys(v)` of an object.
unfoldable pub keys : Fields → List String
keys end = []
keys (field k v fs) = k ∷ keys fs

-- A value as an event's payload; one that is no object stands under the empty name.
unfoldable pub entries : Fields → List (String × Value)
entries end = []
entries (field k v fs) = (k, v) ∷ entries fs

unfoldable pub as_payload : Value → List (String × Value)
unfolding entries
as_payload (obj fs) = entries fs
as_payload v = ("", v) ∷ []

-- A number that may be NaN; `minus n` is -(n + 1).
pub data Number : Type 0 where
  nan : Number
  whole : ℕ → Number
  minus : ℕ → Number

-- A number in an event's payload; NaN is shown as `null`.
abbrev pub number_value : Number → Value
number_value nan = null
number_value (whole n) = num n
number_value (minus n) = negsuc n
