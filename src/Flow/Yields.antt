-- ===== src/Flow/Yields.antt =====
-- What holds of the value that a method returns, where it returns one (flows/base.ts).
use protocol_lens.Prelude.{
  String, ◌≡◌, refl, Bool, true, false, Option, none, some, List, ℕ, if◌then◌else◌, codes,
}
use protocol_lens.Js.Value.{Value, undefined, null}
use protocol_lens.Js.Params.{Params}
use protocol_lens.Flow.State.{Body}
use protocol_lens.Flow.Env.{Env, RawResponse}
use protocol_lens.Flow.Exec.{
  Exec, World, Outcome, returned, thrown, pending, pure, throw, continue, handle, ◌>>=◌, catch,
  or_throw,
}
use protocol_lens.Flow.Base.{read_body, make_request}

abbrev pub IsYielded {ℓ} : {A : Type ℓ} → (A → Type 0) → Outcome A → Type 0
IsYielded P (returned a) = P a
IsYielded P (thrown e) = Unit
IsYielded P pending = Unit

-- Whatever `m` returns satisfies `P`.
pub record Yields {ℓ} {A : Type ℓ} (P : A → Type 0) (m : Exec A) : Type ℓ where
  pub at : (w : World) → IsYielded P (m w).0

module _ {ℓ} {A : Type ℓ} {P : A → Type 0} where
  pub Yields-pure : (a : A) → P a → Yields P (pure a)
  unfolding pure
  Yields-pure a h = record { at = λ w. h }

  pub Yields-throw : (e : String) → Yields P (throw e)
  unfolding throw
  Yields-throw e = record { at = λ w. tt }

  pub Yields-or_throw :
      (e : String) (o : Option A) → ((a : A) → o ≡ some a → P a) → Yields P (or_throw e o)
  unfolding or_throw
  Yields-or_throw e none h = Yields-throw e
  Yields-or_throw e (some a) h = Yields-pure a (h a refl)

  pub Yields-if :
      (b : Bool) (m n : Exec A) → Yields P m → Yields P n → Yields P (if b then m else n)
  Yields-if true m n hm hn = hm
  Yields-if false m n hm hn = hn

  handled :
      (o : Outcome A) (h : String → Exec A)
      → IsYielded P o
      → ((e : String) → Yields P (h e))
      → (w : World) → IsYielded P (handle o h w).0
  handled (returned a) h p hh w = p
  handled (thrown e) h p hh w = (hh e).at w
  handled pending h p hh w = tt

  pub Yields-catch :
      (m : Exec A) (h : String → Exec A)
      → Yields P m
      → ((e : String) → Yields P (h e))
      → Yields P (catch m h)
  unfolding catch
  Yields-catch m h hm hh = record { at = λ w. let (o, w') = m w in handled o h (hm.at w) hh w' }

module _ {ℓ κ} {A : Type ℓ} {B : Type κ} {Q : B → Type 0} where
  after :
      (o : Outcome A) (f : A → Exec B)
      → ((a : A) → Yields Q (f a))
      → (w : World) → IsYielded Q (continue o f w).0
  after (returned a) f h w = (h a).at w
  after (thrown e) f h w = tt
  after pending f h w = tt

  -- The value of `m` does not matter.
  pub Yields-after : (m : Exec A) (f : A → Exec B) → ((a : A) → Yields Q (f a)) → Yields Q (m >>= f)
  unfolding ◌>>=◌
  Yields-after m f h = record { at = λ w. let (o, w') = m w in after o f h w' }

  module _ {P : A → Type 0} where
    continued :
        (o : Outcome A) (f : A → Exec B)
        → IsYielded P o
        → ((a : A) → P a → Yields Q (f a))
        → (w : World) → IsYielded Q (continue o f w).0
    continued (returned a) f p h w = (h a p).at w
    continued (thrown e) f p h w = tt
    continued pending f p h w = tt

    pub Yields-bind :
        (m : Exec A) (f : A → Exec B)
        → Yields P m
        → ((a : A) → P a → Yields Q (f a))
        → Yields Q (m >>= f)
    unfolding ◌>>=◌
    Yields-bind m f hm h = record { at = λ w. let (o, w') = m w in continued o f (hm.at w) h w' }

pub ruleset yields_rules = (Yields-pure, Yields-throw, Yields-if, Yields-after)

-- A value whose properties can be read.
abbrev pub HasProps : Value → Type 0
HasProps undefined = ⊥
HasProps null = ⊥
HasProps _ = Unit

-- The texts that `JSON.parse` reads are none of them `null`.
pub record NeverNull (env : Env) : Type 0 where
  pub parsed : (bytes : List ℕ) (v : Value) → env.parse_json bytes ≡ some v → HasProps v

abbrev IsUsable : RawResponse × Value → Type 0
IsUsable (response, content) = HasProps content

module _ {env : Env} (json : NeverNull env) where
  Yields-parsed :
      (s : String) → Yields HasProps (or_throw env.syntax_error (env.parse_json (codes s)))
  Yields-parsed s = Yields-or_throw env.syntax_error _ (json.parsed (codes s))

  Yields-read_body : (r : RawResponse) → Yields HasProps (read_body env r)
  unfolding read_body
  Yields-read_body r = search (yields_rules, Yields-parsed) depth 9

  pub Yields-make_request :
      (method url : String) (headers : Params) (body : Option Body) (step : String)
      (reference : Option String)
      → Yields IsUsable (make_request env method url headers body step reference)
  unfolding make_request
  Yields-make_request method url headers body step reference = Yields-after _ _ (λ exchange.
      Yields-after _ _ (λ path. Yields-after _ _ (λ _. Yields-after _ _ (λ start.
        Yields-after _ _ (λ response. Yields-after _ _ (λ finish.
          Yields-bind _ _ (Yields-read_body response) (λ content h.
            Yields-after _ _ (λ _. Yields-after _ _ (λ _. Yields-pure (response, content) h)))))))))
