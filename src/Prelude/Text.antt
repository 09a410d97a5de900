-- ===== src/Prelude/Text.antt =====
-- Texts as Go handles them in this program: `strings.Split` at a dot, and numbers in decimal.
pub mod Laws
use Prim.Native.Nat.{ℕ, zero, suc, ◌+◌, ◌*◌, ◌/◌, ◌%◌, ◌-◌}
use Prim.Native.Char.{Char, code}
use Prim.Native.String.{String, ◌++◌}
use mathlib.Core.Path.{◌≡◌, refl}
use mathlib.Core.Bool.{Bool, true, false, ◌&&◌, not}
use mathlib.Core.List.{List, [], ◌∷◌}
use mathlib.Core.Option.{Option, none, some}
use finance_engine.Prelude.Tests.{ltb, leb, nat_beq, if◌then◌else◌}

-- `a + b` on Go strings.
infixr 65 ◌+++◌
abbrev pub ◌+++◌ : String → String → String
s +++ t = s ++ t

-- The character that starts a piece joins the first piece of the rest.
abbrev pub join_head : Char → List String → List String
join_head c [] = (String.◌∷◌ c "") ∷ []
join_head c (p ∷ ps) = String.◌∷◌ c p ∷ ps

-- `strings.Split(s, ".")`
unfoldable pub split_dot : String → List String
split_dot String.[] = "" ∷ []
split_dot (String.◌∷◌ c s) =
    if nat_beq (code c) b'.' then "" ∷ split_dot s else join_head c (split_dot s)

-- No dot stands in the text.
unfoldable pub dot_free : String → Bool
dot_free String.[] = true
dot_free (String.◌∷◌ c s) = not (nat_beq (code c) b'.') && dot_free s

-- The character of a decimal digit.
abbrev pub digit : ℕ → Char
digit zero = "0"
digit (suc zero) = "1"
digit (suc (suc zero)) = "2"
digit (suc (suc (suc zero))) = "3"
digit (suc (suc (suc (suc zero)))) = "4"
digit (suc (suc (suc (suc (suc zero))))) = "5"
digit (suc (suc (suc (suc (suc (suc zero)))))) = "6"
digit (suc (suc (suc (suc (suc (suc (suc zero))))))) = "7"
digit (suc (suc (suc (suc (suc (suc (suc (suc zero)))))))) = "8"
digit _ = "9"

-- The digits of `n` before `acc`; the fuel is a bound on the number of digits.
unfoldable pub show_from : ℕ → ℕ → String → String
show_from zero n acc = acc
show_from (suc fuel) n acc =
    let rest = show_from fuel (n / 10) (String.◌∷◌ (digit (n % 10)) acc) in
    if ltb n 10 then String.◌∷◌ (digit n) acc else rest

-- `%d` at a number that is not negative.
unfoldable pub show : ℕ → String
unfolding show_from
show n = show_from (suc n) n ""

-- `%02d` at a number that is not negative.
unfoldable pub show_two : ℕ → String
unfolding show
show_two n = if ltb n 10 then String.◌∷◌ "0" (show n) else show n
