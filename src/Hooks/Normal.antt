-- ===== src/Hooks/Normal.antt =====
-- The normalization of flow ids in `mapFlowId` of hooks.ts. `toLowerCase` is that of ASCII letters.
use Prim.Native.Char.{Char, code}
use Prim.Native.String
use Prim.Native.String.{String, [], ◌∷◌}
use protocol_lens.Prelude.{
  ℕ, ◌+◌, ◌<◌, Bool, true, false, ◌&&◌, leb, ◌==◌, ascii, ascii-append, if◌then◌else◌, ◌≡◌, ◌≢◌,
  refl, ap, subst, ◌∙◌, arith, inl, inr, Bool-cases,
}

-- A character in lower case, and `_` as `-`.
unfoldable pub normal_code : ℕ → ℕ
normal_code n = if leb 65 n && leb n 90 then n + 32 else if n == 95 then 45 else n

abbrev pub is_changed : ℕ → Bool
is_changed n = if leb 65 n && leb n 90 then true else n == 95

-- `id.toLowerCase().replace(/_/g, '-')`
unfoldable pub normalized : String → String
unfolding normal_code ascii
normalized [] = []
normalized (c ∷ s) =
    let rest = normalized s in
    if is_changed (code c) then String.◌++◌ (ascii (normal_code (code c))) rest else c ∷ rest

normalized-ascii :
    (n : ℕ) (s : String)
    → n < 128
    → is_changed n ≡ false
    → normalized (String.◌++◌ (ascii n) s) ≡ String.◌++◌ (ascii n) (normalized s)
unfolding normalized
normalized-ascii n s h kept = rw (ascii-append n s h, ascii-append n (normalized s) h, kept) refl

normal_code-kept : (n : ℕ) → is_changed n ≡ true → is_changed (normal_code n) ≡ false
unfolding normal_code
normal_code-kept n h = ground arith

normal_code-ascii : (n : ℕ) → is_changed n ≡ true → normal_code n < 128
unfolding normal_code
normal_code-ascii n h = ground arith

pub normalized-normalized : (s : String) → normalized (normalized s) ≡ normalized s
unfolding normalized
normalized-normalized [] = refl
normalized-normalized (c ∷ s) = elim (Bool-cases (is_changed (code c))) [
  | inl changed ↦ rw changed (
      normalized-ascii (normal_code (code c)) (normalized s) (normal_code-ascii (code c) changed)
        (normal_code-kept (code c) changed)
      ∙ ap (String.◌++◌ (ascii (normal_code (code c)))) (normalized-normalized s))
  | inr kept ↦ rw (kept, kept) (ap (◌∷◌ c) (normalized-normalized s))
]

abbrev pub IsCons : String → Type 0
IsCons [] = ⊥
IsCons (c ∷ s) = Unit

cons-not_empty : (c : Char) (s : String) → c ∷ s ≢ ""
cons-not_empty c s e = subst IsCons e tt

pub full-not_empty : (s : String) → IsCons s → s ≢ ""
full-not_empty s h e = subst IsCons e h

pub normalized-not_empty : (s : String) → s ≢ "" → normalized s ≢ ""
unfolding normalized
normalized-not_empty [] h = h
normalized-not_empty (c ∷ s) h = elim (Bool-cases (is_changed (code c))) [
  | inl changed ↦
      rw (changed, ascii-append _ (normalized s) (normal_code-ascii (code c) changed))
        (cons-not_empty _ _)
  | inr kept ↦ rw kept (cons-not_empty c _)
]
