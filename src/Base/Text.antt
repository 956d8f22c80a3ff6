-- ===== src/Base/Text.antt =====
-- Texts as the source handles them: tests of equality, JavaScript's `trim` and `length`.
use Prim.Native.Nat.{ℕ, zero, suc, ◌+◌, ◌-◌, ◌*◌, ◌/◌, ◌%◌}
use Prim.Native.Char.{code}
use Prim.Native.String
use Prim.Native.String.{String, [], ◌∷◌}
use mathlib.Core.Path.{◌≡◌, refl}
use mathlib.Core.List.{List}
use mathlib.Core.Bool.{Bool, ◌&&◌, ◌||◌}
use text.Mathlib.Text.{◌==◌ as text_beq}
use hestiva_os.Base.Tests.{leb, ltb, ◌==◌, if◌then◌else◌}

infixr 65 ◌<+>◌
abbrev pub ◌<+>◌ : String → String → String
s <+> t = String.◌++◌ s t

infix 50 ◌===◌
abbrev pub ◌===◌ : String → String → Bool
s === t = text_beq s t

-- JavaScript's truth of a string: not empty.
abbrev pub is_blank : String → Bool
is_blank [] = Bool.true
is_blank (_ ∷ _) = Bool.false

pub is_blank-eq : (s : String) → is_blank s ≡ Bool.true → s ≡ ""
is_blank-eq [] h = refl
is_blank-eq (_ ∷ _) h = cc

-- The white space and line ends that `String.prototype.trim` removes.
unfoldable pub is_space : ℕ → Bool
is_space c =
    (leb 9 c && leb c 13)
    || c == 32
    || c == 0xa0
    || c == 0x1680
    || (leb 0x2000 c && leb c 0x200a)
    || c == 0x2028
    || c == 0x2029
    || c == 0x202f
    || c == 0x205f
    || c == 0x3000
    || c == 0xfeff

trim_start : String → String
trim_start [] = []
trim_start (c ∷ s) = let rest = trim_start s in if is_space (code c) then rest else c ∷ s

trim_end : String → String
trim_end [] = []
trim_end (c ∷ s) =
    let rest = trim_end s in if is_space (code c) && is_blank rest then [] else c ∷ rest

unfoldable pub trim : String → String
unfolding trim_start trim_end is_space
trim s = trim_end (trim_start s)

-- `s.length` counts UTF-16 units: two for a code point above the basic plane.
unfoldable pub text_length : String → ℕ
text_length [] = 0
text_length (c ∷ s) = (if leb 0x10000 (code c) then 2 else 1) + text_length s

-- `s.startsWith(prefix)`
unfoldable pub starts_with : String → String → Bool
starts_with [] s = Bool.true
starts_with (_ ∷ _) [] = Bool.false
starts_with (p ∷ ps) (c ∷ s) = (code p == code c) && starts_with ps s

-- `s.endsWith(suffix)`
abbrev pub ends_with : String → String → Bool
ends_with suffix [] = suffix === []
ends_with suffix (c ∷ s) = (suffix === (c ∷ s)) || ends_with suffix s

-- `s.split("-")`
abbrev on_first : (String → String) → List String → List String
on_first f List.[] = List.[]
on_first f (List.◌∷◌ s rest) = List.◌∷◌ (f s) rest

unfoldable pub split_dashes : String → List String
split_dashes [] = List.◌∷◌ [] List.[]
split_dashes (c ∷ s) =
    let rest = split_dashes s in
    if code c == 45 then List.◌∷◌ [] rest else on_first (λ t. c ∷ t) rest

abbrev text_at : List String → ℕ → String
text_at List.[] n = []
text_at (List.◌∷◌ s rest) zero = s
text_at (List.◌∷◌ s rest) (suc n) = text_at rest n

abbrev digits : List String
digits = split_dashes "0-1-2-3-4-5-6-7-8-9"

abbrev digit : ℕ → String
digit n = text_at digits n

-- The decimal digits of a number below 10 ^ (fuel + 1).
abbrev decimal_from : ℕ → ℕ → String
decimal_from zero n = digit (n % 10)
decimal_from (suc fuel) n =
    let front = decimal_from fuel (n / 10) in if ltb n 10 then digit n else front <+> digit (n % 10)

-- `${n}`
unfoldable pub decimal : ℕ → String
decimal n = decimal_from n n

-- `Number(s)` of a text of decimal digits.
unfoldable pub digits_value : ℕ → String → ℕ
digits_value so_far [] = so_far
digits_value so_far (c ∷ s) = digits_value (10 * so_far + (code c - 48)) s
