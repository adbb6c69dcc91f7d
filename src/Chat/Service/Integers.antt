-- ===== src/Chat/Service/Integers.antt =====
-- `BigInt` of a text, which src/messages/ChatMessageService.ts calls; it is JavaScript's: white space
-- around the number, a sign before decimal digits, and the prefixes 0x, 0o and 0b.
use i_tantra.Base.{
  ℕ, ◌-◌, Bool, ◌||◌, ◌&&◌, [], ◌∷◌, Option, none, some, leb, nat_beq, Text, if◌then◌else◌,
}
use i_tantra.Base.Int.{ℤ, pos, negsuc}
use i_tantra.NodeId.{trim, all, is_hex, is_decimal, matches_decimal, value}

-- -n
abbrev pub negated : ℕ → ℤ
negated n = if nat_beq n 0 then pos 0 else negsuc (n - 1)

-- The number of a non-empty text of digits that all pass the test.
unfoldable pub digits : (ℕ → Bool) → ℕ → Text → Option ℤ
digits test base [] = none
digits test base (c ∷ cs) = if all test (c ∷ cs) then some (pos (value base 0 (c ∷ cs))) else none

abbrev pub is_octal : ℕ → Bool
is_octal c = leb 48 c && leb c 55

abbrev pub is_binary : ℕ → Bool
is_binary c = leb 48 c && leb c 49

unfoldable pub signed : Text → Option ℤ
signed [] = none
signed (c ∷ cs) =
    if nat_beq c 45
    then (if matches_decimal cs then some (negated (value 10 0 cs)) else none)
    else if nat_beq c 43
    then digits is_decimal 10 cs
    else digits is_decimal 10 (c ∷ cs)

unfoldable pub integer_literal : Text → Option ℤ
unfolding digits signed
integer_literal [] = some (pos 0)
integer_literal (a ∷ []) = signed (a ∷ [])
integer_literal (a ∷ b ∷ cs) =
    if nat_beq a 48 && (nat_beq b 120 || nat_beq b 88)
    then digits is_hex 16 cs
    else if nat_beq a 48 && (nat_beq b 111 || nat_beq b 79)
    then digits is_octal 8 cs
    else if nat_beq a 48 && (nat_beq b 98 || nat_beq b 66)
    then digits is_binary 2 cs
    else signed (a ∷ b ∷ cs)

unfoldable pub big_int : Text → Option ℤ
unfolding integer_literal
big_int s = integer_literal (trim s)
