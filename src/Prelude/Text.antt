-- ===== src/Prelude/Text.antt =====
-- `array.join(separator)`, and the regular expressions that the service tests texts with.
use Prim.Native.Nat.{ℕ, zero, suc}
use Prim.Native.Char.{code}
use Prim.Native.String.{String, ◌++◌}
use mathlib.Core.Bool.{Bool, true, false, ◌&&◌, ◌||◌}
use mathlib.Core.List.{List, [], ◌∷◌}
use uvp_chain_services.Prelude.Tests.{leb, nat_eq, if◌then◌else◌}

unfoldable pub join : String → List String → String
join sep [] = ""
join sep (x ∷ []) = x
join sep (x ∷ (y ∷ ys)) = x ++ (sep ++ join sep (y ∷ ys))

unfoldable pub codes : String → List ℕ
codes String.[] = []
codes (String.◌∷◌ c s) = code c ∷ codes s

-- `text.slice(2)`
unfoldable pub drop_two : String → String
drop_two (String.◌∷◌ a (String.◌∷◌ b s)) = s
drop_two _ = ""

abbrev pub is_digit : ℕ → Bool
is_digit c = leb b'0' c && leb c b'9'

abbrev pub is_hex_digit : ℕ → Bool
is_hex_digit c = is_digit c || (leb b'a' c && leb c b'f') || (leb b'A' c && leb c b'F')

unfoldable pub every : (ℕ → Bool) → List ℕ → Bool
every test [] = true
every test (c ∷ cs) = test c && every test cs

-- `/^[0-9a-fA-F]{n}$/`
unfoldable pub hex_digits : ℕ → List ℕ → Bool
hex_digits zero [] = true
hex_digits zero (c ∷ cs) = false
hex_digits (suc n) [] = false
hex_digits (suc n) (c ∷ cs) = is_hex_digit c && hex_digits n cs

abbrev after_0x : (List ℕ → Bool) → List ℕ → Bool
after_0x rest (a ∷ (b ∷ cs)) = nat_eq a b'0' && nat_eq b b'x' && rest cs
after_0x rest _ = false

-- `/^0x[0-9a-fA-F]*$/`
unfoldable pub is_hex : String → Bool
unfolding codes every
is_hex s = after_0x (every is_hex_digit) (codes s)

-- `/^0x[0-9a-fA-F]{64}$/`
unfoldable pub is_bytes32 : String → Bool
unfolding codes hex_digits
is_bytes32 s = after_0x (hex_digits 64) (codes s)

abbrev decimal_at : List ℕ → Bool
decimal_at [] = false
decimal_at (c ∷ cs) =
    if nat_eq c b'0' then every (λ d. false) cs else is_digit c && every is_digit cs

-- `/^(0|[1-9][0-9]*)$/`
unfoldable pub is_decimal : String → Bool
unfolding codes every
is_decimal s = decimal_at (codes s)

abbrev pub zero_bytes32 : String
zero_bytes32 = "0x0000000000000000000000000000000000000000000000000000000000000000"
