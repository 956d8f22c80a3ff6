-- ===== src/Messaging/Facts/Groups.antt =====
-- Errors that lie in a group of facts.
use hestiva_os.Base.{
  ◌≡◌, inl, inr, Bool-cases, refl, ◌&&◌, ◌==◌, String, Bool, true, false, Option, none, some, List,
  [], ◌∷◌, ◌++◌, when, All, if◌then◌else◌,
}
use Prim.Native.String.append
use Prim.Native.Char.{code}
use hestiva_os.Base.Text.{starts_with, ◌<+>◌, trim, is_blank}
use hestiva_os.Base.Eq.{contains, string_eq}
use hestiva_os.Base.Json.{Value, undefined, boolean, string, object, Fields, get}
use hestiva_os.Messaging.Flow.{FactGroup, group_key, group_prefix}
use hestiva_os.Quotes.Contract.V2.{keep_errors}
use hestiva_os.Quotes.Contract.Fields.{
  WebsiteQuoteContractError, Checked, record_at, required_record, string_at, rejected, accepted,
  required_string, optional_string_at, optional_string, boolean_at, required_boolean,
  optional_boolean_at, optional_boolean, enum_at, enum_string, optional_enum_at, optional_enum,
  given, checked_with,
}

-- The path is the group's own, or one inside it.
pub data InGroup (g : FactGroup) : String → Type 0 where
  whole : InGroup g (group_key g)
  inside : {path : String} → starts_with (group_prefix g) path ≡ true → InGroup g path

abbrev pub AllIn : FactGroup → List WebsiteQuoteContractError → Type 0
AllIn g es = All (λ e. InGroup g e.path) es

module _ (g : FactGroup) where
  pub AllIn-append :
      (xs ys : List WebsiteQuoteContractError) → AllIn g xs → AllIn g ys → AllIn g (xs ++ ys)
  AllIn-append [] ys i j = j
  AllIn-append (x ∷ xs) ys (p, i) j = (p, AllIn-append xs ys i j)

  pub AllIn-when :
      (b : Bool) (e : WebsiteQuoteContractError) → InGroup g e.path → AllIn g (when b e)
  AllIn-when true e p = (p, tt)
  AllIn-when false e p = tt

  pub AllIn-if :
      (b : Bool) (xs ys : List WebsiteQuoteContractError)
      → AllIn g xs
      → AllIn g ys
      → AllIn g (if b then xs else ys)
  AllIn-if true xs ys i j = i
  AllIn-if false xs ys i j = j

  pub AllIn-given {ℓ} :
      {A : Type ℓ} (o : Option A) (more : A → List WebsiteQuoteContractError)
      → ((a : A) → AllIn g (more a))
      → AllIn g (given o more)
  AllIn-given none more i = tt
  AllIn-given (some a) more i = i a

  at_record : (path : String) (v : Value) → InGroup g path → AllIn g (record_at path v).errors
  at_record path (object _) p = tt
  at_record path _ p = (p, tt)

  at_string : (path : String) (v : Value) → InGroup g path → AllIn g (string_at path v).errors
  at_string path (string s) p = split (is_blank (trim s))
    where
      split :
          (b : Bool)
          → AllIn g (
              Checked.errors (
                if b
                then rejected path "REQUIRED_STRING" (path <+> " must be a non-empty string.")
                else accepted s))
      split true = (p, tt)
      split false = tt
  at_string path _ p = (p, tt)

  at_optional_string :
      (path : String) (v : Value) → InGroup g path → AllIn g (optional_string_at path v).errors
  at_optional_string path undefined p = tt
  at_optional_string path (string _) p = tt
  at_optional_string path _ p = (p, tt)

  at_boolean : (path : String) (v : Value) → InGroup g path → AllIn g (boolean_at path v).errors
  at_boolean path (boolean _) p = tt
  at_boolean path _ p = (p, tt)

  at_optional_boolean :
      (path : String) (v : Value) → InGroup g path → AllIn g (optional_boolean_at path v).errors
  at_optional_boolean path undefined p = tt
  at_optional_boolean path (boolean _) p = tt
  at_optional_boolean path _ p = (p, tt)

  at_enum :
      (path : String) (allowed : List String) (v : Value)
      → InGroup g path
      → AllIn g (enum_at path allowed v).errors
  at_enum path allowed (string s) p = split (contains allowed s)
    where
      split :
          (b : Bool)
          → AllIn g (
              Checked.errors (
                if b
                then accepted s
                else rejected path "INVALID_ENUM" (path <+> " has an unsupported value.")))
      split true = tt
      split false = (p, tt)
  at_enum path allowed _ p = (p, tt)

  at_optional_enum :
      (path : String) (allowed : List String) (v : Value)
      → InGroup g path
      → AllIn g (optional_enum_at path allowed v).errors
  at_optional_enum path allowed undefined p = tt
  at_optional_enum path allowed v p = at_enum path allowed v p

  pub AllIn-record :
      (parent : Fields) (key path : String)
      → InGroup g path
      → AllIn g (required_record parent key path).errors
  unfolding required_record
  AllIn-record parent key path p = at_record path (get key parent) p

  pub AllIn-string :
      (parent : Fields) (key path : String)
      → InGroup g path
      → AllIn g (required_string parent key path).errors
  unfolding required_string
  AllIn-string parent key path p = at_string path (get key parent) p

  pub AllIn-optional_string :
      (parent : Fields) (key path : String)
      → InGroup g path
      → AllIn g (optional_string parent key path).errors
  unfolding optional_string
  AllIn-optional_string parent key path p = at_optional_string path (get key parent) p

  pub AllIn-boolean :
      (parent : Fields) (key path : String)
      → InGroup g path
      → AllIn g (required_boolean parent key path).errors
  unfolding required_boolean
  AllIn-boolean parent key path p = at_boolean path (get key parent) p

  pub AllIn-optional_boolean :
      (parent : Fields) (key path : String)
      → InGroup g path
      → AllIn g (optional_boolean parent key path).errors
  unfolding optional_boolean
  AllIn-optional_boolean parent key path p = at_optional_boolean path (get key parent) p

  pub AllIn-enum :
      (parent : Fields) (key path : String) (allowed : List String)
      → InGroup g path
      → AllIn g (enum_string parent key path allowed).errors
  unfolding enum_string
  AllIn-enum parent key path allowed p = at_enum path allowed (get key parent) p

  pub AllIn-optional_enum :
      (parent : Fields) (key path : String) (allowed : List String)
      → InGroup g path
      → AllIn g (optional_enum parent key path allowed).errors
  unfolding optional_enum
  AllIn-optional_enum parent key path allowed p = at_optional_enum path allowed (get key parent) p

  pub AllIn-checked {ℓ} :
      {A : Type ℓ} (c : Checked A) (more : A → List WebsiteQuoteContractError)
      → AllIn g c.errors
      → ((a : A) → AllIn g (more a))
      → AllIn g (checked_with c more)
  AllIn-checked c more i j = AllIn-append c.errors _ i (AllIn-given c.value more j)

and_mono : (a b b' : Bool) → (b ≡ true → b' ≡ true) → (a && b) ≡ true → (a && b') ≡ true
and_mono true b b' f h = f h
and_mono false b b' f h = cc

pub starts_with-append : (p s t : String) → starts_with p s ≡ true → starts_with p (s <+> t) ≡ true
unfolding starts_with
starts_with-append String.[] s t h = refl
starts_with-append (String.◌∷◌ c p) String.[] t h = cc
starts_with-append (String.◌∷◌ c p) (String.◌∷◌ d s) t h =
    rw (append.cons d s t) (and_mono (code c == code d) _ _ (starts_with-append p s t) h)

-- A path that goes on from one inside the group.
pub inside_append :
    {g : FactGroup} (path t : String)
    → starts_with (group_prefix g) path ≡ true
    → InGroup g (path <+> t)
inside_append {g = g} path t h = inside (starts_with-append (group_prefix g) path t h)

pub ruleset group_rules = (
  whole, inside, AllIn-append, AllIn-when, AllIn-if, AllIn-given, AllIn-record, AllIn-string,
  AllIn-optional_string, AllIn-boolean, AllIn-optional_boolean, AllIn-enum, AllIn-optional_enum,
  AllIn-checked,
)

-- Every error lies in some group.
abbrev pub Grouped : List WebsiteQuoteContractError → Type 0
Grouped es = All (λ e. (g : FactGroup) × InGroup g e.path) es

pub AllIn-Grouped : (g : FactGroup) (es : List WebsiteQuoteContractError) → AllIn g es → Grouped es
AllIn-Grouped g [] i = tt
AllIn-Grouped g (e ∷ es) (p, i) = ((g, p), AllIn-Grouped g es i)

pub Grouped-append :
    (xs ys : List WebsiteQuoteContractError) → Grouped xs → Grouped ys → Grouped (xs ++ ys)
Grouped-append [] ys i j = j
Grouped-append (x ∷ xs) ys (p, i) j = (p, Grouped-append xs ys i j)

pub Grouped-keep :
    (p : WebsiteQuoteContractError → Bool) (es : List WebsiteQuoteContractError)
    → Grouped es
    → Grouped (keep_errors p es)
unfolding keep_errors
Grouped-keep p [] i = tt
Grouped-keep p (e ∷ es) (g, i) = elim (Bool-cases (p e)) [
  | inl kept ↦ rw kept (g, Grouped-keep p es i)
  | inr dropped ↦ rw dropped (Grouped-keep p es i)
]
