-- ===== src/Registry/Failure.antt =====
-- What a failed `loadAllProtocols` leaves behind (registry.ts).
use protocol_lens.Prelude.{
  String, Bool, true, false, Option, none, some, List, [], ◌∷◌, if◌then◌else◌, ◌≡◌, refl, ap, sym,
  subst,
}
use protocol_lens.Registry.{
  Registry, AllPromise, failed, AllAnswer, shared, get, contains, load_unless, start_if,
  load_protocol, load_succeeds, load_fails, share, load_all_protocols, all_fails,
}

-- A call, or a load of one protocol that settles.
pub data Call (A : Type 0) : Type 0 where
  load : String → Call A
  load_all : Call A
  succeeds : String → A → Call A
  fails : String → Call A

module _ {A : Type 0} where
  unfoldable pub step : Call A → Registry A → Registry A
  unfolding load_protocol load_succeeds load_fails load_all_protocols
  step (load id) r = (load_protocol id r).1
  step load_all r = (load_all_protocols r).1
  step (succeeds id a) r = load_succeeds id a r
  step (fails id) r = load_fails id r

  unfoldable pub run : List (Call A) → Registry A → Registry A
  unfolding step
  run [] r = r
  run (c ∷ cs) r = run cs (step c r)

  record IsStuck (r : Registry A) : Type 0 where
    promise : r.all_protocols_promise ≡ some failed
    not_loaded : r.all_protocols_loaded ≡ false

  start_if-IsStuck :
      (b : Bool) (id : String) (r : Registry A) → IsStuck r → IsStuck (start_if b id r).1
  start_if-IsStuck true id r h = h
  start_if-IsStuck false id r h = record { promise = h.promise; not_loaded = h.not_loaded }

  load_unless-IsStuck :
      (c : Option A) (id : String) (r : Registry A) → IsStuck r → IsStuck (load_unless c id r).1
  load_unless-IsStuck (some a) id r h = h
  load_unless-IsStuck none id r h = start_if-IsStuck (contains id r.loading) id r h

  shared_by :
      (b : Bool) (o : Option AllPromise) (vs : List A) (r : Registry A)
      → b ≡ false
      → o ≡ some failed
      → (if b then (AllAnswer.values vs, r) else share o r) ≡ (shared failed, r)
  shared_by b o vs r e f = rw (e, f) refl

  load_all-shared : (r : Registry A) → IsStuck r → load_all_protocols r ≡ (shared failed, r)
  unfolding load_all_protocols
  load_all-shared r h = shared_by _ _ _ r h.not_loaded h.promise

  step-IsStuck : (c : Call A) (r : Registry A) → IsStuck r → IsStuck (step c r)
  unfolding step load_protocol load_succeeds load_fails
  step-IsStuck (load id) r h = load_unless-IsStuck (get id r.protocols) id r h
  step-IsStuck load_all r h =
      subst (λ (x : AllAnswer A × Registry A). IsStuck x.1) (sym (load_all-shared r h)) h
  step-IsStuck (succeeds id a) r h = record { promise = h.promise; not_loaded = h.not_loaded }
  step-IsStuck (fails id) r h = record { promise = h.promise; not_loaded = h.not_loaded }

  run-IsStuck : (cs : List (Call A)) (r : Registry A) → IsStuck r → IsStuck (run cs r)
  unfolding run
  run-IsStuck [] r h = h
  run-IsStuck (c ∷ cs) r h = run-IsStuck cs (step c r) (step-IsStuck c r h)

  -- After `loadAllProtocols` has failed, every later call of it gets the same rejected promise,
  -- whatever protocols are loaded meanwhile, until the cache is cleared.
  pub failure-stays :
      (calls : List (Call A)) (r : Registry A)
      → r.all_protocols_loaded ≡ false
      → (load_all_protocols (run calls (all_fails r))).0 ≡ shared failed
  unfolding all_fails
  failure-stays calls r h =
      ap (λ (x : AllAnswer A × Registry A). x.0)
        (load_all-shared _
          (run-IsStuck calls (all_fails r) (record { promise = refl; not_loaded = h })))
