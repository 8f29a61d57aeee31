-- ===== src/Registry/Actors/Distinct.antt =====
-- The actors of a flow are told apart by their ids (registry.ts).
use protocol_lens.Prelude.{
  String, Bool, true, false, ◌&&◌, Option, none, some, List, [], ◌∷◌, ◌++◌, str_eq, if◌then◌else◌,
  ◌≡◌, refl, sym, ap, subst, ◌∙◌, arith, eq_iff, Bool-cases, inl, inr, ◌⊎◌,
}
use protocol_lens.Registry.Actors.{
  Actor, Participants, standard_actors, standard_mappings, mapped, find_actor, standard_actor,
  then_actor, custom_actor, holds, ids_of, add_found, add_actors, actor_id, add_id, actor_ids,
  get_actors_for_flow,
}

-- No id stands twice.
abbrev pub are_distinct : List String → Bool
are_distinct [] = true
are_distinct (k ∷ ks) = let rest = are_distinct ks in if holds k ks then false else rest

holds-append :
    (id k : String) (ks : List String)
    → holds id (ks ++ (k ∷ [])) ≡ (if holds id ks then true else str_eq k id)
holds-append id k [] = ground arith
holds-append id k (j ∷ ks) = ground (arith, holds-append id k ks)

distinct-append :
    (k : String) (ks : List String)
    → holds k ks ≡ false
    → are_distinct ks ≡ true
    → are_distinct (ks ++ (k ∷ [])) ≡ true
distinct-append k [] h d = refl
distinct-append k (j ∷ ks) h d =
    ground (arith, h, d, distinct-append k ks, holds-append j k ks, eq_iff j k, eq_iff k j)

ids_of-append :
    (as' : List Actor) (a : Actor) → ids_of (as' ++ (a ∷ [])) ≡ ids_of as' ++ (a.id ∷ [])
ids_of-append [] a = refl
ids_of-append (b ∷ as') a = ap (◌∷◌ b.id) (ids_of-append as' a)

abbrev is_some {ℓ} : {A : Type ℓ} → Option A → Bool
is_some none = false
is_some (some a) = true

-- The id of a standard actor is itself mapped.
abbrev is_key : String → Bool
is_key id = is_some (standard_actor id)

all_keys : List Actor → Bool
all_keys [] = true
all_keys (a ∷ rest) = let others = all_keys rest in is_key a.id && others

standard_keys : all_keys standard_actors ≡ true
unfolding all_keys standard_actor
standard_keys = refl

abbrev IsKeyed : Option Actor → Type 0
IsKeyed none = Unit
IsKeyed (some a) = is_key a.id ≡ true

both : (a b : Bool) → (a && b) ≡ true → (a ≡ true) × (b ≡ true)
both true b h = (refl, h)
both false b h = absurd (ground arith)

find_actor-IsKeyed :
    (id : String) (as' : List Actor) → all_keys as' ≡ true → IsKeyed (find_actor id as')
unfolding all_keys find_actor
find_actor-IsKeyed id [] h = tt
find_actor-IsKeyed id (b ∷ as') h =
    let (h1, h2) = both (is_key b.id) (all_keys as') h in
    elim (Bool-cases (str_eq b.id id)) [
      | inl same ↦ rw same h1
      | inr differs ↦ rw differs (find_actor-IsKeyed id as' h2)
    ]

standard_actor-IsKeyed : (id : String) → IsKeyed (standard_actor id)
unfolding standard_actor
standard_actor-IsKeyed id = keyed (mapped id standard_mappings)
  where
    keyed : (o : Option String) → IsKeyed (then_actor o)
    keyed none = tt
    keyed (some k) = find_actor-IsKeyed k standard_actors standard_keys

-- The actors made for the ids `done`: each stands for one of them, or is a standard actor.
record IsMadeFor (done : List String) (actors : List Actor) : Type 0 where
  distinct : are_distinct (ids_of actors) ≡ true
  known : (k : String) → holds k (ids_of actors) ≡ true → (is_key k ≡ true) ⊎ (holds k done ≡ true)

grown :
    (id : String) (done : List String) (actors : List Actor) (a : Actor)
    → IsMadeFor done actors
    → holds a.id (ids_of actors) ≡ false
    → (is_key a.id ≡ true) ⊎ (a.id ≡ id)
    → IsMadeFor (done ++ (id ∷ [])) (actors ++ (a ∷ []))
grown id done actors a m new source = record {
  distinct = rw (ids_of-append actors a) (distinct-append a.id (ids_of actors) new m.distinct);
  known = λ k h. elim (Bool-cases (holds k (ids_of actors))) [
    | inl old ↦ still_known k (m.known k old)
    | inr fresh ↦ named k (same_id k fresh (holds_last k h))
  ];
}
  where
    still_known :
        (k : String)
        → (is_key k ≡ true) ⊎ (holds k done ≡ true)
        → (is_key k ≡ true) ⊎ (holds k (done ++ (id ∷ [])) ≡ true)
    still_known k (inl key) = inl key
    still_known k (inr old) = inr (holds-append k id done ∙ rw old refl)

    holds_last :
        (k : String)
        → holds k (ids_of (actors ++ (a ∷ []))) ≡ true
        → holds k (ids_of actors ++ (a.id ∷ [])) ≡ true
    holds_last k h = rw⁻¹ (ids_of-append actors a) h

    same_id :
        (k : String)
        → holds k (ids_of actors) ≡ false
        → holds k (ids_of actors ++ (a.id ∷ [])) ≡ true
        → a.id ≡ k
    same_id k fresh h =
        (eq_iff a.id k).0 (ground (arith, fresh, h, holds-append k a.id (ids_of actors)))

    named : (k : String) → a.id ≡ k → (is_key k ≡ true) ⊎ (holds k (done ++ (id ∷ [])) ≡ true)
    named k e = elim source [
      | inl key ↦ inl (subst (λ j. is_key j ≡ true) e key)
      | inr given ↦ inr (
          subst (λ j. holds j (done ++ (id ∷ [])) ≡ true) (sym given ∙ e)
            (ground (arith, holds-append id id done, (eq_iff id id).1 refl)))
    ]

weakened :
    (id : String) (done : List String) (actors : List Actor)
    → IsMadeFor done actors
    → IsMadeFor (done ++ (id ∷ [])) actors
weakened id done actors m = record {
  distinct = m.distinct;
  known = λ k h. elim (m.known k h) [
    | inl key ↦ inl key
    | inr old ↦ inr (holds-append k id done ∙ rw old refl)
  ];
}

-- One more id, which has not been met before.
add_found-IsMadeFor :
    (o : Option Actor) (id : String) (done : List String) (actors : List Actor)
    → standard_actor id ≡ o
    → IsKeyed o
    → holds id done ≡ false
    → IsMadeFor done actors
    → IsMadeFor (done ++ (id ∷ [])) (add_found o id actors)
unfolding custom_actor
add_found-IsMadeFor none id done actors e keyed new m =
    grown id done actors (custom_actor id) m (not_held (Bool-cases (holds id (ids_of actors))))
      (inr refl)
  where
    not_held :
        (holds id (ids_of actors) ≡ true) ⊎ (holds id (ids_of actors) ≡ false)
        → holds id (ids_of actors) ≡ false
    not_held (inl held) = elim (m.known id held) [
      | inl key ↦ absurd (let off = ap is_some e in ground (arith, key, off))
      | inr old ↦ absurd (ground (arith, old, new))
    ]
    not_held (inr free) = free
add_found-IsMadeFor (some a) id done actors e keyed new m =
    elim (Bool-cases (holds a.id (ids_of actors))) [
      | inl held ↦ rw held (weakened id done actors m)
      | inr free ↦ rw free (grown id done actors a m free (inl keyed))
    ]

-- The ids that are still to come have not been met, and stand once.
record IsNew (ids done : List String) : Type 0 where
  apart : are_distinct ids ≡ true
  new : (k : String) → holds k ids ≡ true → holds k done ≡ false

later-IsNew :
    (id : String) (ids done : List String) → IsNew (id ∷ ids) done → IsNew ids (done ++ (id ∷ []))
later-IsNew id ids done n =
    let apart = n.apart in
    record {
      apart = ground (arith, apart);
      new = λ k h. ground (arith, apart, h, holds-append k id done, n.new k, eq_iff id k);
    }

add_actors-IsMadeFor :
    (ids done : List String) (actors : List Actor)
    → IsNew ids done
    → IsMadeFor done actors
    → are_distinct (ids_of (add_actors ids actors)) ≡ true
unfolding add_actors
add_actors-IsMadeFor [] done actors n m = m.distinct
add_actors-IsMadeFor (id ∷ ids) done actors n m =
    add_actors-IsMadeFor ids (done ++ (id ∷ [])) _ (later-IsNew id ids done n) (
      add_found-IsMadeFor (standard_actor id) id done actors refl (standard_actor-IsKeyed id)
        (n.new id (ground (arith, (eq_iff id id).1 refl))) m)

add_id-distinct :
    (id : String) (ids : List String)
    → are_distinct ids ≡ true
    → are_distinct (add_id id ids) ≡ true
unfolding add_id
add_id-distinct id ids d = elim (Bool-cases (holds id ids)) [
  | inl held ↦ rw held d
  | inr free ↦ rw free (distinct-append id ids free d)
]

actor_ids-distinct :
    (ps : List Participants) (ids : List String)
    → are_distinct ids ≡ true
    → are_distinct (actor_ids ps ids) ≡ true
unfolding actor_ids
actor_ids-distinct [] ids d = d
actor_ids-distinct (p ∷ ps) ids d = actor_ids-distinct ps _ (
    add_id-distinct (actor_id p.receiver) (add_id (actor_id p.sender) ids)
      (add_id-distinct (actor_id p.sender) ids d))

-- The actors of any flow have different ids: a standard actor stands once however many names its
-- steps use for it, and no custom actor has the id of another one.
pub get_actors_for_flow-distinct :
    (steps : List Participants) → are_distinct (ids_of (get_actors_for_flow steps)) ≡ true
unfolding get_actors_for_flow
get_actors_for_flow-distinct steps =
    add_actors-IsMadeFor (actor_ids steps []) [] []
      (record { apart = actor_ids-distinct steps [] refl; new = λ k h. refl })
      (record { distinct = refl; known = λ k h. absurd (ground (arith, h)) })
