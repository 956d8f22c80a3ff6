-- ===== src/Base/Pattern.antt =====
-- The regular expressions of the source, as tests of texts.
use Prim.Native.Nat.{ℕ, zero, suc}
use Prim.Native.Char.{code}
use Prim.Native.String.{String}
use mathlib.Core.Bool.{Bool, true, false, not, ◌&&◌, ◌||◌}
use mathlib.Core.List.{List, [], ◌∷◌}
use hestiva_os.Base.Tests.{leb, ◌==◌}
use hestiva_os.Base.Text.{is_space, is_blank}

abbrev pub is_hex : ℕ → Bool
is_hex c = (leb 48 c && leb c 57) || ((leb 65 c && leb c 70) || (leb 97 c && leb c 102))

-- `[1-5]` and `[89ab]`
abbrev is_uuid_version : ℕ → Bool
is_uuid_version c = leb 49 c && leb c 53

abbrev is_uuid_variant : ℕ → Bool
is_uuid_variant c = c == 56 || (c == 57 || (c == 65 || (c == 66 || (c == 97 || c == 98))))

abbrev pub is_dash : ℕ → Bool
is_dash c = c == 45

abbrev pub repeat : ℕ → (ℕ → Bool) → List (ℕ → Bool) → List (ℕ → Bool)
repeat n p rest = go n
  where
    go : ℕ → List (ℕ → Bool)
    go zero = rest
    go (suc n) = p ∷ go n

-- Each character passes the test in its place.
unfoldable pub matches : List (ℕ → Bool) → String → Bool
matches [] String.[] = true
matches [] (String.◌∷◌ _ _) = false
matches (_ ∷ _) String.[] = false
matches (p ∷ ps) (String.◌∷◌ c s) = p (code c) && matches ps s

-- `UUID_PATTERN`, which ignores case.
abbrev pub uuid_pattern : List (ℕ → Bool)
uuid_pattern = repeat 8 is_hex (
    is_dash
    ∷ repeat 4 is_hex (
        is_dash
        ∷ is_uuid_version
        ∷ repeat 3 is_hex
            (is_dash ∷ is_uuid_variant ∷ repeat 3 is_hex (is_dash ∷ repeat 12 is_hex []))))

abbrev pub is_digit : ℕ → Bool
is_digit c = leb 48 c && leb c 57

-- `SHA256_PATTERN`, which ignores case.
abbrev pub sha256_pattern : List (ℕ → Bool)
sha256_pattern = repeat 64 is_hex []

-- `ISO_DATE_PATTERN`
abbrev pub iso_date_pattern : List (ℕ → Bool)
iso_date_pattern = repeat 4 is_digit (is_dash ∷ repeat 2 is_digit (is_dash ∷ repeat 2 is_digit []))

-- At most so many digits, and nothing else.
abbrev pub digits_up_to : ℕ → String → Bool
digits_up_to n String.[] = true
digits_up_to zero (String.◌∷◌ _ _) = false
digits_up_to (suc n) (String.◌∷◌ c s) = is_digit (code c) && digits_up_to n s

-- At least `least` digits, at most `more` beyond them, and nothing else.
abbrev pub digits_between : ℕ → ℕ → String → Bool
digits_between zero more s = digits_up_to more s
digits_between (suc least) more String.[] = false
digits_between (suc least) more (String.◌∷◌ c s) = is_digit (code c) && digits_between least more s

abbrev after_plus : String → Bool
after_plus String.[] = false
after_plus (String.◌∷◌ c s) = leb 49 (code c) && leb (code c) 57 && digits_between 7 7 s

-- `E164_PATTERN`
unfoldable pub is_e164 : String → Bool
is_e164 String.[] = false
is_e164 (String.◌∷◌ c s) = code c == 43 && after_plus s

abbrev is_base64 : ℕ → Bool
is_base64 c =
    (leb 65 c && leb c 90) || ((leb 97 c && leb c 122) || (is_digit c || (c == 43 || c == 47)))

-- Where in a group of four characters the text goes on.
pub data GroupPlace : Type 0 where
  group_start after_one after_two after_three : GroupPlace

is_padding : String → Bool
is_padding String.[] = false
is_padding (String.◌∷◌ c s) = code c == 61 && is_blank s

base64_from : GroupPlace → String → Bool
unfolding is_padding
base64_from group_start String.[] = true
base64_from _ String.[] = false
base64_from group_start (String.◌∷◌ c s) = is_base64 (code c) && base64_from after_one s
base64_from after_one (String.◌∷◌ c s) = is_base64 (code c) && base64_from after_two s
base64_from after_two (String.◌∷◌ c s) =
    (code c == 61 && is_padding s) || (is_base64 (code c) && base64_from after_three s)
base64_from after_three (String.◌∷◌ c s) =
    (code c == 61 && is_blank s) || (is_base64 (code c) && base64_from group_start s)

-- `BASE64_PATTERN`
unfoldable pub matches_base64 : String → Bool
unfolding base64_from
matches_base64 s = base64_from group_start s

abbrev no_space : String → Bool
no_space String.[] = true
no_space (String.◌∷◌ c s) = not (is_space (code c)) && no_space s

-- A dot with a text behind it.
abbrev dot_inside : String → Bool
dot_inside String.[] = false
dot_inside (String.◌∷◌ c s) = (code c == 46 && not (is_blank s)) || dot_inside s

abbrev is_domain : String → Bool
is_domain String.[] = false
is_domain (String.◌∷◌ _ s) = dot_inside s

-- An `@` with a domain behind it.
abbrev at_inside : String → Bool
at_inside String.[] = false
at_inside (String.◌∷◌ c s) = (code c == 64 && is_domain s) || at_inside s

abbrev has_local_part : String → Bool
has_local_part String.[] = false
has_local_part (String.◌∷◌ _ s) = at_inside s

-- `/^\S+@\S+\.\S+$/`
unfoldable pub is_email : String → Bool
unfolding is_space
is_email s = no_space s && has_local_part s
