-- ===== src/NodeId/Hex.antt =====
-- Lemmas on hex digits, for src/BITCHAT/core/BitChatPacket.ts.
use i_tantra.Base.{
  ℕ, zero, suc, ◌+◌, ◌-◌, ◌*◌, ◌/◌, ◌%◌, ◌^◌, ◌≤◌, ◌<◌, ◌≡◌, refl, sym, ap, ◌∙◌, Bool, true, false,
  ◌&&◌, [], ◌∷◌, ◌++◌, nat_beq, length, length-append, drop, replicate, Text, arith,
}
use mathlib.Core.List.{append_assoc, append-nil}
use native.Mathlib.Nat.{pow-suc}
use native.Mathlib.Decide.{dec_lt}
use i_tantra.NodeId.{
  hex_digit, to_hex_loop, pad_start, format, is_lower_hex, all, digit_value, value, is_valid_id,
}

-- The k lowest hex digits of `v`, with leading zeros.
unfoldable pub fixed_hex : ℕ → ℕ → Text
fixed_hex zero v = []
fixed_hex (suc k) v = fixed_hex k (v / 16) ++ hex_digit (v % 16) ∷ []

pub length-fixed_hex : (k v : ℕ) → length (fixed_hex k v) ≡ k
unfolding fixed_hex
length-fixed_hex zero v = refl
length-fixed_hex (suc k) v = omega (
  arith,
  length-append (fixed_hex k (v / 16)) (hex_digit (v % 16) ∷ []),
  length-fixed_hex k (v / 16),
)

digit_value-hex_digit : (d : ℕ) → d < 16 → digit_value (hex_digit d) ≡ d
unfolding digit_value hex_digit
digit_value-hex_digit d h = ground arith

is_lower_hex-hex_digit : (d : ℕ) → d < 16 → is_lower_hex (hex_digit d) ≡ true
unfolding is_lower_hex hex_digit
is_lower_hex-hex_digit d h = ground arith

all-append : (p : ℕ → Bool) (s t : Text) → all p (s ++ t) ≡ (all p s && all p t)
unfolding all
all-append p [] t = refl
all-append p (c ∷ s) t = ground (arith, all-append p s t)

value-append : (b acc : ℕ) (s t : Text) → value b acc (s ++ t) ≡ value b (value b acc s) t
unfolding value
value-append b acc [] t = refl
value-append b acc (c ∷ s) t = value-append b (acc * b + digit_value c) s t

pub all-fixed_hex : (k v : ℕ) → all is_lower_hex (fixed_hex k v) ≡ true
unfolding fixed_hex
all-fixed_hex zero v = unfold all in refl
all-fixed_hex (suc k) v =
    all-append is_lower_hex (fixed_hex k (v / 16)) (hex_digit (v % 16) ∷ [])
    ∙ rw (all-fixed_hex k (v / 16))
        (unfold all in rw (is_lower_hex-hex_digit (v % 16) (omega arith)))

-- The digits denote the number that they were made from.
pub value-fixed_hex : (k v : ℕ) → v < 16 ^ k → value 16 0 (fixed_hex k v) ≡ v
unfolding fixed_hex
value-fixed_hex zero v h = unfold value in omega arith
value-fixed_hex (suc k) v h =
    value-append 16 0 (fixed_hex k (v / 16)) (hex_digit (v % 16) ∷ [])
    ∙ rw (value-fixed_hex k (v / 16) (omega (arith, pow-suc 16 k)))
        (unfold value in rw (digit_value-hex_digit (v % 16) (omega arith)) (omega arith))

replicate_snoc : (k a : ℕ) → replicate k a ++ a ∷ [] ≡ a ∷ replicate k a
replicate_snoc zero a = refl
replicate_snoc (suc k) a = ap (◌∷◌ a) (replicate_snoc k a)

fixed_hex-zero : (k : ℕ) → fixed_hex k 0 ≡ replicate k 48
unfolding fixed_hex hex_digit
fixed_hex-zero zero = refl
fixed_hex-zero (suc k) = rw (fixed_hex-zero k) (replicate_snoc k 48)

fixed_hex-suc : (k v : ℕ) → fixed_hex (suc k) v ≡ fixed_hex k (v / 16) ++ hex_digit (v % 16) ∷ []
unfolding fixed_hex
fixed_hex-suc k v = refl

last_round : (k v : ℕ) (acc : Text) → v < 16 → to_hex_loop (suc k) v acc ≡ hex_digit (v % 16) ∷ acc
unfolding to_hex_loop
last_round k v acc h = ground arith

next_round :
    (k v : ℕ) (acc : Text)
    → 16 ≤ v
    → to_hex_loop (suc k) v acc ≡ to_hex_loop k (v / 16) (hex_digit (v % 16) ∷ acc)
unfolding to_hex_loop
next_round k v acc h = let more : nat_beq (v / 16) 0 ≡ false = ground arith in rw more

-- With `k` rounds left and `v` a single digit, padding writes the zeros that the digits start with.
pad_last :
    (k v n : ℕ) (acc : Text)
    → v < 16
    → n ≡ suc k + length acc
    → pad_start n 48 (hex_digit (v % 16) ∷ acc) ≡ fixed_hex (suc k) v ++ acc
unfolding pad_start
pad_last k v n acc h e =
    let room : n - suc (length acc) ≡ k = omega arith in
    let none_left : v / 16 ≡ 0 = omega arith in
    rw (room, fixed_hex-suc, none_left, fixed_hex-zero, append_assoc)

-- Padded to `n` places, the digits of `v` before `acc` are the fixed ones.
to_hex_loop-fixed :
    (k v n : ℕ) (acc : Text)
    → v < 16 ^ suc k
    → n ≡ suc k + length acc
    → pad_start n 48 (to_hex_loop (suc k) v acc) ≡ fixed_hex (suc k) v ++ acc
to_hex_loop-fixed zero v n acc h e =
    rw (last_round 0 v acc (omega arith)) (pad_last 0 v n acc (omega arith) e)
to_hex_loop-fixed (suc k) v n acc h e = elim (dec_lt v 16) [
  | yes p ↦ rw (last_round (suc k) v acc p) (pad_last (suc k) v n acc p e)
  | no p ↦
      let d = hex_digit (v % 16) in
      rw (next_round (suc k) v acc (omega arith), fixed_hex-suc, append_assoc)
        (to_hex_loop-fixed k (v / 16) n (d ∷ acc) (omega (arith, pow-suc 16 (suc k))) (omega arith))
]

-- `format` gives "0x" and the 16 fixed digits.
pub format-fixed_hex : (v : ℕ) → v < 2 ^ 64 → format v ≡ 48 ∷ 120 ∷ fixed_hex 16 v
unfolding format
format-fixed_hex v h =
    ap (λ (t : Text). 48 ∷ 120 ∷ t)
      (to_hex_loop-fixed 15 v 16 [] h refl ∙ append-nil (fixed_hex 16 v))

-- A formatted number is a valid identifier, and its digits denote the number.
pub is_valid_id-format : (v : ℕ) → v < 2 ^ 64 → is_valid_id (format v) ≡ true
is_valid_id-format v h =
    rw (format-fixed_hex v h) (unfold is_valid_id in rw (length-fixed_hex, all-fixed_hex))

pub value-format : (v : ℕ) → v < 2 ^ 64 → value 16 0 (drop 2 (format v)) ≡ v
value-format v h = rw (format-fixed_hex v h) (value-fixed_hex 16 v h)

pub length-format : (v : ℕ) → v < 2 ^ 64 → length (format v) ≡ 18
length-format v h = rw (format-fixed_hex v h, length-fixed_hex)

pub format_injective : (u v : ℕ) → u < 2 ^ 64 → v < 2 ^ 64 → format u ≡ format v → u ≡ v
format_injective u v hu hv e =
    sym (value-format u hu) ∙ ap (λ (t : Text). value 16 0 (drop 2 t)) e ∙ value-format v hv
