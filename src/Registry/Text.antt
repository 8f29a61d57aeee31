-- ===== src/Registry/Text.antt =====
-- The text functions of registry.ts. Letters and white space are those of ASCII.
use Prim.Native.Char.{Char, code}
use Prim.Native.String
use Prim.Native.String.{String, [], ◌∷◌}
use protocol_lens.Prelude.{◌+◌, ◌-◌, Bool, true, false, ◌&&◌, ◌||◌, leb, ◌==◌, ascii, if◌then◌else◌}

abbrev lower_char : Char → String
lower_char c = if leb 65 (code c) && leb (code c) 90 then ascii (code c + 32) else c ∷ []

abbrev upper_char : Char → String
upper_char c = if leb 97 (code c) && leb (code c) 122 then ascii (code c - 32) else c ∷ []

-- `s.toLowerCase()`
unfoldable pub to_lower : String → String
unfolding ascii
to_lower [] = []
to_lower (c ∷ s) = String.◌++◌ (lower_char c) (to_lower s)

-- `s.charAt(0).toUpperCase() + s.slice(1)`
unfoldable pub capitalized : String → String
unfolding ascii
capitalized [] = []
capitalized (c ∷ s) = String.◌++◌ (upper_char c) s

abbrev is_space : Char → Bool
is_space c = (leb 9 (code c) && leb (code c) 13) || (code c == 32)

-- `s.replace(/\s+/g, '_')`, from a place after white space or not
unfoldable pub join_words_from : Bool → String → String
join_words_from after [] = []
join_words_from true (c ∷ s) =
    let inside = join_words_from true s in
    let outside = join_words_from false s in if is_space c then inside else c ∷ outside
join_words_from false (c ∷ s) =
    let inside = join_words_from true s in
    let outside = join_words_from false s in
    if is_space c then String.◌++◌ "_" inside else c ∷ outside

unfoldable pub join_words : String → String
unfolding join_words_from
join_words s = join_words_from false s
