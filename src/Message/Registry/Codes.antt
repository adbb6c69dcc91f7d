-- ===== src/Message/Registry/Codes.antt =====
-- Laws of the registries of src/protocol/BinaryMessageTypes.ts.
use i_tantra.Base.{
  ℕ, ◌<◌, ◌≡◌, refl, true, false, [], ◌∷◌, none, some, Text, text_eq, ◌==◌, Bool-cases,
  Option-cases, inl, inr, arith,
}
use i_tantra.Base.Dict
use i_tantra.Frame.{contains}
use i_tantra.Message.Registry.{
  Registry, language_registry, emotion_registry, voice_profile_registry, wire_code, valid_codes,
  label_of, label_or,
}

-- No code stands for two names.
abbrev pub HasDistinctCodes : Registry → Type 0
HasDistinctCodes [] = Unit {0}
HasDistinctCodes ((name, code) ∷ registry) =
    (contains (valid_codes registry) code ≡ false) × HasDistinctCodes registry

lookup-valid_codes :
    (name : Text) (code : ℕ) (registry : Registry)
    → Dict.lookup name registry ≡ some code
    → contains (valid_codes registry) code ≡ true
unfolding Dict.lookup contains valid_codes
lookup-valid_codes name code [] h = cc
lookup-valid_codes name code ((n, c) ∷ registry) h =
    ground (arith, h, lookup-valid_codes name code registry)

-- Every name, registered or not, has a code that `decode` takes.
pub wire_code-valid_codes :
    (name : Text) (registry : Registry)
    → contains (valid_codes registry) 0 ≡ true
    → contains (valid_codes registry) (wire_code name registry) ≡ true
unfolding wire_code
wire_code-valid_codes name registry h = elim (Option-cases (Dict.lookup name registry)) [
  | inl e ↦ rw e h
  | inr (code, e) ↦ rw e (lookup-valid_codes name code registry e)
]

label_of-lookup :
    (name : Text) (code : ℕ) (registry : Registry)
    → HasDistinctCodes registry
    → Dict.lookup name registry ≡ some code
    → label_of code registry ≡ some name
unfolding Dict.lookup contains valid_codes label_of
label_of-lookup name code [] d h = cc
label_of-lookup name code ((n, c) ∷ registry) (new, d) h = ground (
  arith,
  h,
  new,
  text_eq.equals_iff n name,
  lookup-valid_codes name code registry,
  label_of-lookup name code registry d,
)

has-lookup :
    (name : Text) (registry : Registry)
    → Dict.has name registry ≡ true
    → (code : ℕ) × (Dict.lookup name registry ≡ some code)
unfolding Dict.lookup Dict.has
has-lookup name [] h = cc
has-lookup name ((n, c) ∷ registry) h = elim (Bool-cases (n == name)) [
  | inl t ↦ (c, rw t refl)
  | inr f ↦ let (code, e) = has-lookup name registry (rw f at h) in (code, rw f e)
]

-- A registered name is read back from its code.
pub label_or-wire_code :
    (other name : Text) (registry : Registry)
    → HasDistinctCodes registry
    → Dict.has name registry ≡ true
    → label_or other (wire_code name registry) registry ≡ name
unfolding wire_code label_or
label_or-wire_code other name registry d h =
    let (code, e) = has-lookup name registry h in
    rw (e, label_of-lookup name code registry d e) refl

-- An unregistered one has the code 0.
pub wire_code-unregistered :
    (name : Text) (registry : Registry)
    → Dict.lookup name registry ≡ none
    → wire_code name registry ≡ 0
unfolding wire_code
wire_code-unregistered name registry h = rw h refl

pub language_code-lt : (c : ℕ) → contains (valid_codes language_registry) c ≡ true → c < 11
unfolding contains valid_codes
language_code-lt c h = ground arith

pub emotion_code-lt : (c : ℕ) → contains (valid_codes emotion_registry) c ≡ true → c < 4
unfolding contains valid_codes
emotion_code-lt c h = ground arith

pub voice_code-lt : (c : ℕ) → contains (valid_codes voice_profile_registry) c ≡ true → c < 1
unfolding contains valid_codes
voice_code-lt c h = ground arith

pub languages-HasDistinctCodes : HasDistinctCodes language_registry
unfolding contains valid_codes
languages-HasDistinctCodes =
    (refl, (refl, (refl, (refl, (refl, (refl, (refl, (refl, (refl, (refl, (refl, tt)))))))))))

pub emotions-HasDistinctCodes : HasDistinctCodes emotion_registry
unfolding contains valid_codes
emotions-HasDistinctCodes = (refl, (refl, (refl, (refl, tt))))

pub voices-HasDistinctCodes : HasDistinctCodes voice_profile_registry
unfolding contains valid_codes
voices-HasDistinctCodes = (refl, tt)

-- The code 0 is valid in each of them.
pub languages-zero : contains (valid_codes language_registry) 0 ≡ true
unfolding contains valid_codes
languages-zero = refl

pub emotions-zero : contains (valid_codes emotion_registry) 0 ≡ true
unfolding contains valid_codes
emotions-zero = refl

pub voices-zero : contains (valid_codes voice_profile_registry) 0 ≡ true
unfolding contains valid_codes
voices-zero = refl
