-- ===== src/Limiter/Base/Keys.antt =====
-- limiter/base.py, `_build_key`: which limits share a counter.
use mathlib.Core.List.{append_assoc}
use radicalbit_ai_gateway.Prelude.{
  ℕ, ◌≡◌, ◌≢◌, refl, sym, ap, ◌∙◌, [], ◌∷◌, ◌++◌, arith, Text, text, All, IsDigit, decimal,
  read_onto, decimal-IsDigit, read-decimal,
}
use radicalbit_ai_gateway.Limiter.Window.{
  ScenarioType, request_rate, token_input, token_output, budget, audio_duration, scenario_value,
  WindowConfig,
}
use radicalbit_ai_gateway.Limiter.Base.{LimiterClass, fixed, aligned, window_type, build_key}

-- The text has no colon.
abbrev pub IsSegment : Text → Type 0
IsSegment = All (λ c. c ≢ b':')

abbrev cut : Text → Text → Text
cut a u = a ++ (b':' ∷ u)

not_within : (b u v : Text) → IsSegment u → u ≡ cut b v → ⊥
not_within [] [] v h e = cc
not_within [] (c ∷ u) v h e = h.0 (ground arith)
not_within (c ∷ b) [] v h e = cc
not_within (c ∷ b) (d ∷ u) v h e = not_within b u v h.1 (ground arith)

-- Two texts with the same first colon.
first_segment :
    (a b : Text) {u v : Text} → IsSegment a → IsSegment b → cut a u ≡ cut b v → (a ≡ b) × (u ≡ v)
first_segment [] [] h k e = (refl, ground arith)
first_segment [] (c ∷ b) h k e = absurd (k.0 (ground arith))
first_segment (c ∷ a) [] h k e = absurd (h.0 (ground arith))
first_segment (c ∷ a) (d ∷ b) {u} {v} h k e =
    let rest : cut a u ≡ cut b v = ground arith in
    let (p, q) = first_segment a b h.1 k.1 rest in (ground arith, q)

-- Two texts with the same last colon.
last_segment :
    (a b : Text) {u v : Text} → IsSegment u → IsSegment v → cut a u ≡ cut b v → (a ≡ b) × (u ≡ v)
last_segment [] [] h k e = (refl, ground arith)
last_segment [] (c ∷ b) {u} {v} h k e = absurd (not_within b u v h (ground arith))
last_segment (c ∷ a) [] {u} {v} h k e = absurd (not_within a v u k (ground arith))
last_segment (c ∷ a) (d ∷ b) {u} {v} h k e =
    let rest : cut a u ≡ cut b v = ground arith in
    let (p, q) = last_segment a b h k rest in (ground arith, q)

digits-IsSegment : (s : Text) → All IsDigit s → IsSegment s
digits-IsSegment [] h = tt
digits-IsSegment (c ∷ s) h = (λ e. (let d = h.0 in ground arith), digits-IsSegment s h.1)

decimal-injective : (n m : ℕ) → decimal n ≡ decimal m → n ≡ m
decimal-injective n m e = sym (read-decimal n) ∙ (ap (read_onto 0) e ∙ read-decimal m)

scenario-IsSegment : (t : ScenarioType) → IsSegment (scenario_value t)
unfolding scenario_value
scenario-IsSegment request_rate = omega arith
scenario-IsSegment token_input = omega arith
scenario-IsSegment token_output = omega arith
scenario-IsSegment budget = omega arith
scenario-IsSegment audio_duration = omega arith

type-IsSegment : (cls : LimiterClass) → IsSegment (window_type cls)
unfolding window_type
type-IsSegment fixed = omega arith
type-IsSegment aligned = omega arith

scenario_value-injective : (s t : ScenarioType) → scenario_value s ≡ scenario_value t → s ≡ t
unfolding scenario_value
scenario_value-injective s t e = ground arith

window_type-injective : (a b : LimiterClass) → window_type a ≡ window_type b → a ≡ b
unfolding window_type
window_type-injective a b e = ground arith

abbrev key_parts : LimiterClass → WindowConfig → Text
key_parts cls c = cut c.project_uuid (
    cut c.route_name
      (cut (scenario_value c.scenario_type) (cut (window_type cls) (decimal c.window_seconds))))

build_key-parts :
    (a b : LimiterClass) (c d : WindowConfig)
    → build_key a c ≡ build_key b d
    → key_parts a c ≡ key_parts b d
build_key-parts a b c d e = shape (key_parts a c) (key_parts b d) (unfold build_key in e)
  where
    shape : (s t : Text) → text "limiter:" ++ s ≡ text "limiter:" ++ t → s ≡ t
    shape s t p = cc

cut_assoc : (a b c : Text) → cut a (cut b c) ≡ cut (cut a b) c
cut_assoc a b c = sym (append_assoc a (b':' ∷ b) (b':' ∷ c))

-- From the right: the last three segments of a key have no colon.
from_right :
    (r r' s s' t t' d d' : Text)
    → (IsSegment s × IsSegment s')
    → (IsSegment t × IsSegment t')
    → (IsSegment d × IsSegment d')
    → cut r (cut s (cut t d)) ≡ cut r' (cut s' (cut t' d'))
    → (r ≡ r') × (s ≡ s') × (t ≡ t') × (d ≡ d')
from_right r r' s s' t t' d d' hs ht hd e =
    let whole : cut (cut (cut r s) t) d ≡ cut (cut (cut r' s') t') d' =
      sym (regroup r s t d) ∙ (e ∙ regroup r' s' t' d') in
    let (p, ed) = last_segment (cut (cut r s) t) (cut (cut r' s') t') hd.0 hd.1 whole in
    let (q, et) = last_segment (cut r s) (cut r' s') ht.0 ht.1 p in
    let (er, es) = last_segment r r' hs.0 hs.1 q in (er, es, et, ed)
  where
    regroup : (a b c e : Text) → cut a (cut b (cut c e)) ≡ cut (cut (cut a b) c) e
    regroup a b c e =
        ap (cut a) (cut_assoc b c e)
        ∙ (cut_assoc a (cut b c) e ∙ ap (λ x. cut x e) (cut_assoc a b c))

-- Two limiters whose owners' names have no colon, such as UUIDs, share a counter only if they agree
-- in class, owner, route, scenario and window length. The route's name may have colons.
pub build_key-injective :
    (a b : LimiterClass) (c d : WindowConfig)
    → IsSegment c.project_uuid
    → IsSegment d.project_uuid
    → build_key a c ≡ build_key b d
    → (a ≡ b)
      × (c.project_uuid ≡ d.project_uuid)
      × (c.route_name ≡ d.route_name)
      × (c.scenario_type ≡ d.scenario_type)
      × (c.window_seconds ≡ d.window_seconds)
build_key-injective a b c d hc hd e =
    let parts = build_key-parts a b c d e in
    let (owner, rest) = first_segment c.project_uuid d.project_uuid hc hd parts in
    let (route, scenario, cls, window) =
      from_right c.route_name d.route_name (scenario_value c.scenario_type)
        (scenario_value d.scenario_type) (window_type a) (window_type b) (decimal c.window_seconds)
        (decimal d.window_seconds)
        (scenario-IsSegment c.scenario_type, scenario-IsSegment d.scenario_type)
        (type-IsSegment a, type-IsSegment b)
        (
          digits-IsSegment _ (decimal-IsDigit c.window_seconds),
          digits-IsSegment _ (decimal-IsDigit d.window_seconds),
        )
        rest in
    (
      window_type-injective a b cls,
      owner,
      route,
      scenario_value-injective c.scenario_type d.scenario_type scenario,
      decimal-injective c.window_seconds d.window_seconds window,
    )
