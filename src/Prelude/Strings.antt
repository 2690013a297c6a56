-- ===== src/Prelude/Strings.antt =====
-- Python's text operations that the services use: concatenation, `strip`, `str` of a number.
use Prim.Native.Nat.{ℕ, zero, suc, ◌+◌, ◌/◌, ◌%◌}
use Prim.Native.Char.{Char, code}
use Prim.Native.String
use Prim.Native.String.{String}
use mathlib.Core.Path.{◌≡◌, refl, ap}
use mathlib.Core.Bool.{Bool, ◌||◌, ◌&&◌}
use mathlib.Core.List.{List, [], ◌∷◌, reverse}
use akar_ai.Prelude.Tests.{leb, ltb, nat_beq, if◌then◌else◌}

abbrev pub codes : String → List Char
codes String.[] = []
codes (String.◌∷◌ c s) = c ∷ codes s

abbrev pub text_of : List Char → String
text_of [] = ""
text_of (c ∷ cs) = String.◌∷◌ c (text_of cs)

pub codes-text_of : (cs : List Char) → codes (text_of cs) ≡ cs
codes-text_of [] = refl
codes-text_of (c ∷ cs) = ap (λ t. c ∷ t) (codes-text_of cs)

abbrev pub text_append : String → String → String
text_append s t = String.◌++◌ s t

-- The pieces of an f-string.
abbrev pub format : List String → String
format [] = ""
format (s ∷ ss) = text_append s (format ss)

-- The ASCII characters for which `str.isspace` holds.
abbrev pub is_space : ℕ → Bool
is_space c = nat_beq c 32 || (leb 9 c && leb c 13) || (leb 28 c && leb c 31)

strip_left : List Char → List Char
strip_left [] = []
strip_left (c ∷ cs) = let rest = strip_left cs in if is_space (code c) then rest else c ∷ cs

-- `s.strip()`
unfoldable pub strip : String → String
unfolding strip_left
strip s = text_of (reverse (strip_left (reverse (strip_left (codes s)))))

digit : ℕ → String
digit zero = "0"
digit (suc zero) = "1"
digit (suc (suc zero)) = "2"
digit (suc (suc (suc zero))) = "3"
digit (suc (suc (suc (suc zero)))) = "4"
digit (suc (suc (suc (suc (suc zero))))) = "5"
digit (suc (suc (suc (suc (suc (suc zero)))))) = "6"
digit (suc (suc (suc (suc (suc (suc (suc zero))))))) = "7"
digit (suc (suc (suc (suc (suc (suc (suc (suc zero)))))))) = "8"
digit _ = "9"

str_from : ℕ → ℕ → String → String
str_from zero n acc = acc
str_from (suc fuel) n acc =
    let acc' = text_append (digit (n % 10)) acc in
    let more = str_from fuel (n / 10) acc' in if ltb n 10 then acc' else more

-- `str(n)`; a number has at most as many digits as its value and one more.
unfoldable pub str : ℕ → String
unfolding digit str_from
str n = str_from (n + 1) n ""
