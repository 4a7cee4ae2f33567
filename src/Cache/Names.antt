-- ===== src/Cache/Names.antt =====
-- `_get_cache_name` of core/utils/cache/manager.py: the name tells the type and the namespace.
use mathlib.Core.Path.{subst}
use Prim.Native.Char.{Char, code}
use Prim.Native.String.{◌++◌, ◌∷◌}
use text.Mathlib.TextLemmas.{append_cancel_left, append-nil, cons-append, nil≢cons, cons≢nil}
use xiaozhi_desk_robot_serve.Prelude.{
  ℕ, ◌+◌, ◌*◌, String, ◌≡◌, refl, ap, sym, ◌∙◌, str_eq, eq_iff, if◌then◌else◌, Bool-cases, ◌==◌,
  inl, inr,
}
use xiaozhi_desk_robot_serve.Cache.Types.{
  CacheType, type_value, location, weather, air_quality, intent, config, device_prompt,
  voiceprint_health, audio_data,
}
use xiaozhi_desk_robot_serve.Cache.Manager.{cache_name}

-- the first two characters of a name, which no two types share
second_code : ℕ → String → ℕ
second_code a String.[] = a
second_code a (String.◌∷◌ c s) = a * 4096 + code c

first_codes : String → ℕ
first_codes String.[] = 0
first_codes (String.◌∷◌ c s) = second_code (code c) s

abbrev tag : CacheType → ℕ
tag t = first_codes (type_value t)

suffix : String → String
suffix namespace = if str_eq namespace "" then "" else ":" ++ namespace

cache_name_lem :
    (t : CacheType) (namespace : String) → cache_name t namespace ≡ type_value t ++ suffix namespace
unfolding cache_name suffix
cache_name_lem t namespace = elim (Bool-cases (str_eq namespace "")) [
  | inl e ↦ rw e (sym (append-nil (type_value t)))
  | inr e ↦ rw e refl
]

first_codes-append_cons :
    (c d : Char) (r s : String) → first_codes ((c ∷ d ∷ r) ++ s) ≡ first_codes (c ∷ d ∷ r)
unfolding first_codes second_code
first_codes-append_cons c d r s = rw (cons-append c (d ∷ r) s, cons-append d r s)

first_codes-append : (t : CacheType) (s : String) → first_codes (type_value t ++ s) ≡ tag t
unfolding type_value
first_codes-append location s = first_codes-append_cons _ _ _ s
first_codes-append _ s = first_codes-append_cons _ _ _ s

-- the type that a tag stands for
type_of : ℕ → CacheType
type_of n =
    if n == 442479
    then location
    else if n == 487525
    then weather
    else if n == 397417
    then air_quality
    else if n == 430190
    then intent
    else if n == 405615
    then config
    else if n == 409701
    then device_prompt
    else if n == 483439
    then voiceprint_health
    else audio_data

type_of-tag : (t : CacheType) → type_of (tag t) ≡ t
unfolding type_of first_codes second_code type_value
type_of-tag location = refl
type_of-tag _ = refl

tag_inj : (t u : CacheType) → tag t ≡ tag u → t ≡ u
tag_inj t u h = sym (type_of-tag t) ∙ ap type_of h ∙ type_of-tag u

suffix_inj : (a b : String) → suffix a ≡ suffix b → a ≡ b
unfolding suffix
suffix_inj a b h = elim (Bool-cases (str_eq a "")) [
  | inl p ↦ elim (Bool-cases (str_eq b "")) [
    | inl q ↦ (eq_iff a "").0 p ∙ sym ((eq_iff b "").0 q)
    | inr q ↦ absurd (nil≢cons (rw (p, q) at h ∙ cons-append _ _ b))
  ]
  | inr p ↦ elim (Bool-cases (str_eq b "")) [
    | inl q ↦ absurd (cons≢nil (sym (cons-append _ _ a) ∙ rw (p, q) at h))
    | inr q ↦ append_cancel_left ":" a b (rw (p, q) at h)
  ]
]

-- Two pairs of a type and a namespace have the same cache name only if they are the same pair.
pub cache_name_inj :
    (t u : CacheType) (a b : String) → cache_name t a ≡ cache_name u b → (t ≡ u) × (a ≡ b)
cache_name_inj t u a b h =
    let both = sym (cache_name_lem t a) ∙ h ∙ cache_name_lem u b in
    let same = tag_inj t u (
      sym (first_codes-append t (suffix a))
      ∙ ap first_codes both
      ∙ first_codes-append u (suffix b)) in
    (
      same,
      suffix_inj a b (
          append_cancel_left (type_value u) (suffix a) (suffix b)
            (subst (λ x. type_value x ++ suffix a ≡ type_value u ++ suffix b) same both)),
    )
