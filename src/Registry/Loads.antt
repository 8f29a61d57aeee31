-- ===== src/Registry/Loads.antt =====
-- How often a protocol is loaded (registry.ts).
use protocol_lens.Prelude.{
  ℕ, suc, ◌+◌, ◌≤◌, String, Bool, true, false, Option, none, some, List, [], ◌∷◌, ◌++◌, str_eq,
  if◌then◌else◌, ◌≡◌, refl, ap, subst, arith, eq_iff, Bool-cases, inl, inr,
}
use protocol_lens.Registry.{
  Registry, empty_registry, get, set, contains, delete, start_if, load_unless, load_protocol,
  load_succeeds, load_fails,
}

-- The loads of `id` that are in flight.
abbrev pub count : String → List String → ℕ
count id [] = 0
count id (k ∷ ks) = if str_eq k id then suc (count id ks) else count id ks

count-append :
    (id k : String) (ks : List String)
    → count id (ks ++ (k ∷ [])) ≡ (if str_eq k id then suc (count id ks) else count id ks)
count-append id k [] = refl
count-append id k (j ∷ ks) = ground (arith, count-append id k ks)

count-delete : (id k : String) (ks : List String) → count id (delete k ks) ≤ count id ks
unfolding delete
count-delete id k [] = omega arith
count-delete id k (j ∷ ks) = ground (arith, count-delete id k ks)

count-deleted : (id : String) (ks : List String) → count id ks ≤ 1 → count id (delete id ks) ≡ 0
unfolding delete
count-deleted id [] h = refl
count-deleted id (k ∷ ks) h = ground (arith, h, count-deleted id ks)

count-contains : (id : String) (ks : List String) → contains id ks ≡ false → count id ks ≡ 0
count-contains id [] h = refl
count-contains id (k ∷ ks) h = ground (arith, h, count-contains id ks)

module _ {A : Type 0} where
  -- The registry after calls and settled loads, without `clearCache`.
  pub data Reaches : Registry A → Type 0 where
    fresh : Reaches empty_registry
    called : (id : String) (r : Registry A) → Reaches r → Reaches (load_protocol id r).1
    succeeded :
        (id : String) (a : A) (r : Registry A)
        → Reaches r
        → contains id r.flights ≡ true
        → Reaches (load_succeeds id a r)
    failed :
        (id : String) (r : Registry A)
        → Reaches r
        → contains id r.flights ≡ true
        → Reaches (load_fails id r)

  get-set :
      (id k : String) (a : A) (ps : List (String × A))
      → get id (set k a ps) ≡ (if str_eq k id then some a else get id ps)
  unfolding get set
  get-set id k a [] = refl
  get-set id k a ((j, b) ∷ ps) =
      ground (arith, get-set id k a ps, eq_iff j k, eq_iff j id, eq_iff k id)

  abbrev pub is_some : Option A → Bool
  is_some none = false
  is_some (some a) = true

  -- Every load in flight is one that callers can join, there is one for a protocol at most, and none
  -- for a protocol that is cached.
  record IsOnce (r : Registry A) : Type 0 where
    known : r.flights ≡ r.loading
    once : (id : String) → count id r.flights ≤ 1
    not_cached : (id : String) → is_some (get id r.protocols) ≡ true → count id r.flights ≡ 0

  start_if-IsOnce :
      (b : Bool) (id : String) (r : Registry A)
      → contains id r.loading ≡ b
      → is_some (get id r.protocols) ≡ false
      → IsOnce r
      → IsOnce (start_if b id r).1
  start_if-IsOnce true id r h new o = o
  start_if-IsOnce false id r h new o = record {
    known = ap (λ ks. ks ++ (id ∷ [])) o.known;
    once = λ j. ground (arith, count-append j id r.flights, o.once j, none_yet, eq_iff id j);
    not_cached =
        λ j c. ground (arith, count-append j id r.flights, o.not_cached j, c, new, eq_iff id j);
  }
    where
      none_yet : count id r.flights ≡ 0
      none_yet = count-contains id r.flights (rw o.known h)

  load_unless-IsOnce :
      (c : Option A) (id : String) (r : Registry A)
      → get id r.protocols ≡ c
      → IsOnce r
      → IsOnce (load_unless c id r).1
  load_unless-IsOnce (some a) id r e o = o
  load_unless-IsOnce none id r e o =
      start_if-IsOnce (contains id r.loading) id r refl (ap is_some e) o

  load_succeeds-IsOnce :
      (id : String) (a : A) (r : Registry A) → IsOnce r → IsOnce (load_succeeds id a r)
  unfolding load_succeeds
  load_succeeds-IsOnce id a r o = record {
    known = ap (delete id) o.known;
    once = λ j. ground (arith, count-delete j id r.flights, o.once j);
    not_cached = λ j c. elim (Bool-cases (str_eq id j)) [
      | inl same ↦
          subst (λ k. count k (delete id r.flights) ≡ 0) ((eq_iff id j).0 same)
            (count-deleted id r.flights (o.once id))
      | inr differs ↦ ground (
        arith,
        count-delete j id r.flights,
        o.not_cached j,
        get-set j id a r.protocols,
        c,
        differs,
      )
    ];
  }

  load_fails-IsOnce : (id : String) (r : Registry A) → IsOnce r → IsOnce (load_fails id r)
  unfolding load_fails
  load_fails-IsOnce id r o = record {
    known = ap (delete id) o.known;
    once = λ j. ground (arith, count-delete j id r.flights, o.once j);
    not_cached = λ j c. ground (arith, count-delete j id r.flights, o.not_cached j c);
  }

  Reaches-IsOnce : (r : Registry A) → Reaches r → IsOnce r
  unfolding load_protocol get
  Reaches-IsOnce _ fresh = record {
    known = refl;
    once = λ j. omega arith;
    not_cached = λ j c. refl;
  }
  Reaches-IsOnce _ (called id r h) =
      load_unless-IsOnce (get id r.protocols) id r refl (Reaches-IsOnce r h)
  Reaches-IsOnce _ (succeeded id a r h e) = load_succeeds-IsOnce id a r (Reaches-IsOnce r h)
  Reaches-IsOnce _ (failed id r h e) = load_fails-IsOnce id r (Reaches-IsOnce r h)

  -- A protocol that is cached, as a number.
  abbrev pub cached_count : String → Registry A → ℕ
  cached_count id r = if is_some (get id r.protocols) then 1 else 0

  -- While the cache is not cleared, a protocol is in the cache or being loaded, and never twice: its
  -- loads in flight and its cached copy are one at most, whatever calls and failures came before.
  pub loads_once :
      (id : String) (r : Registry A) → Reaches r → count id r.flights + cached_count id r ≤ 1
  loads_once id r h = let o = Reaches-IsOnce r h in ground (arith, o.once id, o.not_cached id)
