-- ===== src/Flow/Window.antt =====
-- Waiting for the authorization window, event by event (`openAuthorizationPopup`).
use protocol_lens.Prelude.{
  String, ◌≡◌, ◌≢◌, ◌⊎◌, inl, inr, refl, Bool, true, false, Option, none, some, List, [], ◌∷◌, ◌++◌,
  ap, ◌∙◌, str_eq, eq_iff, ◌&&◌, Bool-cases, arith,
}
use protocol_lens.Js.Value.{Value, str, get_prop}
use protocol_lens.Flow.Env.{Env, WindowEvent, message, closed, action}
use protocol_lens.Flow.Exec.{World, returned, ◌>>=◌, pure, act}
use protocol_lens.Flow.Jwt.{is_text}
use protocol_lens.Flow.Validation.{str_of_is_text}
use protocol_lens.Flow.Popup.{has_type, is_callback, run_action, await_callback}

-- A message that is no callback of this kind: it comes from another origin, or its `type` is another
-- one.
abbrev pub IsForeign : Env → (kind origin : String) → Value → Type 0
IsForeign env kind origin content =
    (origin ≢ env.origin) ⊎ (get_prop content "type" ≢ some (str kind))

has_type-some :
    (kind : String) (found : Option Value) → has_type kind found ≡ true → found ≡ some (str kind)
has_type-some kind none h = absurd (ground arith)
has_type-some kind (some v) h = ap some (str_of_is_text v kind h)

both_true : (a b : Bool) → (a && b) ≡ true → (a ≡ true) × (b ≡ true)
both_true true b h = (refl, h)
both_true false b h = absurd (ground arith)

not_callback :
    (env : Env) (kind origin : String) (content : Value)
    → IsForeign env kind origin content
    → is_callback env kind origin content ≢ true
unfolding is_callback
not_callback env kind origin content foreign h =
    let (own, typed) = both_true (str_eq origin env.origin) _ h in
    elim foreign [
      | inl other ↦ other ((eq_iff origin env.origin).0 own)
      | inr other ↦ other (has_type-some kind (get_prop content "type") typed)
    ]

callback :
    (env : Env) (kind : String) (content : Value)
    → get_prop content "type" ≡ some (str kind)
    → is_callback env kind env.origin content ≡ true
unfolding is_callback is_text
callback env kind content h =
    rw ((eq_iff env.origin env.origin).1 refl, h) ((eq_iff kind kind).1 refl)

skipped :
    (env : Env) (kind origin : String) (content : Value) (after : List WindowEvent) (w : World)
    → IsForeign env kind origin content
    → await_callback env kind (message origin content ∷ after) w ≡ await_callback env kind after w
unfolding await_callback
skipped env kind origin content after w foreign =
    elim (Bool-cases (is_callback env kind origin content)) [
      | inl ours ↦ absurd (not_callback env kind origin content foreign ours)
      | inr other ↦ rw other refl
    ]

skipped_later :
    (env : Env) (kind origin : String) (content : Value) (before after : List WindowEvent)
    (w : World)
    → IsForeign env kind origin content
    → await_callback env kind (before ++ (message origin content ∷ after)) w
      ≡ await_callback env kind (before ++ after) w
unfolding await_callback ◌>>=◌ run_action pure
skipped_later env kind origin content [] after w foreign =
    skipped env kind origin content after w foreign
skipped_later env kind origin content (message o v ∷ before) after w foreign =
    elim (Bool-cases (is_callback env kind o v)) [
      | inl ours ↦ rw ours refl
      | inr other ↦ rw other (skipped_later env kind origin content before after w foreign)
    ]
skipped_later env kind origin content (closed ∷ before) after w foreign = refl
skipped_later env kind origin content (action a ∷ before) after w foreign =
    skipped_later env kind origin content before after (act env a w) foreign

-- A message from another origin, or one whose `type` is another one, changes neither how the wait
-- ends nor the state it leaves, wherever among the events of the window it comes; and a message of
-- the page's own origin and of the type of the callback is handed over as it is, also when it comes
-- right after such a message.
pub await_callback-ignores_foreign :
    (env : Env) (kind origin : String) (content own : Value) (before after : List WindowEvent)
    (w : World)
    → IsForeign env kind origin content
    → get_prop own "type" ≡ some (str kind)
    → (await_callback env kind (before ++ (message origin content ∷ after)) w
        ≡ await_callback env kind (before ++ after) w)
      × (await_callback env kind (message origin content ∷ message env.origin own ∷ after) w
          ≡ (returned own, w))
unfolding await_callback pure
await_callback-ignores_foreign env kind origin content own before after w foreign typed = (
  skipped_later env kind origin content before after w foreign,
  skipped env kind origin content (message env.origin own ∷ after) w foreign
      ∙ rw (callback env kind own typed) refl,
)
