-- ===== src/Message/Registry.antt =====
-- The registries of src/protocol/BinaryMessageTypes.ts: objects from names to wire codes.
pub mod Codes
use i_tantra.Base.{
  ℕ, Bool, true, false, ◌||◌, List, [], ◌∷◌, Option, none, some, map, nat_beq, any, Text, codes,
  text_eq, ◌==◌, if◌then◌else◌,
}
use i_tantra.Base.Dict
use i_tantra.Frame.{contains}

abbrev pub Registry : Type 0
Registry = List (Text × ℕ)

abbrev pub language_registry : Registry
language_registry =
    (codes "unknown", 0x00)
    ∷ (codes "en", 0x01)
    ∷ (codes "hi", 0x02)
    ∷ (codes "bn", 0x03)
    ∷ (codes "gu", 0x04)
    ∷ (codes "mr", 0x05)
    ∷ (codes "kn", 0x06)
    ∷ (codes "ml", 0x07)
    ∷ (codes "ta", 0x08)
    ∷ (codes "te", 0x09)
    ∷ (codes "or", 0x0a)
    ∷ []

abbrev pub emotion_registry : Registry
emotion_registry =
    (codes "neutral", 0x00)
    ∷ (codes "happy", 0x01)
    ∷ (codes "sad", 0x02)
    ∷ (codes "angry", 0x03)
    ∷ []

abbrev pub voice_profile_registry : Registry
voice_profile_registry = (codes "default", 0x00) ∷ []

-- What every object inherits from Object.prototype.
abbrev pub inherited_names : List Text
inherited_names =
    codes "constructor"
    ∷ codes "__defineGetter__"
    ∷ codes "__defineSetter__"
    ∷ codes "hasOwnProperty"
    ∷ codes "__lookupGetter__"
    ∷ codes "__lookupSetter__"
    ∷ codes "isPrototypeOf"
    ∷ codes "propertyIsEnumerable"
    ∷ codes "toString"
    ∷ codes "valueOf"
    ∷ codes "__proto__"
    ∷ codes "toLocaleString"
    ∷ []

-- name in registry
unfoldable pub is_in : Text → Registry → Bool
is_in name registry = Dict.has name registry || any (λ n. n == name) inherited_names

-- x ?? other
abbrev pub or_else : {A : Type 0} → Option A → A → A
or_else (some x) other = x
or_else none other = other

-- The byte stored for `registry[name] ?? registry.first`: every default has the code 0, and an
-- inherited function or object is stored as 0 too.
unfoldable pub wire_code : Text → Registry → ℕ
wire_code name registry = or_else (Dict.lookup name registry) 0

-- new Set(Object.values(registry))
unfoldable pub valid_codes : Registry → List ℕ
valid_codes [] = []
valid_codes ((name, code) ∷ registry) = code ∷ valid_codes registry

-- The reverse object: codes are distinct in each registry.
unfoldable pub label_of : ℕ → Registry → Option Text
label_of code [] = none
label_of code ((name, c) ∷ registry) = if nat_beq c code then some name else label_of code registry

-- reverse[code] ?? other
unfoldable pub label_or : Text → ℕ → Registry → Text
unfolding label_of
label_or other code registry = or_else (label_of code registry) other
