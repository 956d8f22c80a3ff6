-- ===== src/Quotes/Review/Match.antt =====
-- apps/api/src/quotes/quote-match-resolution.ts: which stored customers and properties a submission
-- may stand for.
use hestiva_os.Base.{
  ◌==◌, String, Bool, false, not, ◌&&◌, ◌||◌, Option, none, some, List, [], ◌∷◌, ◌++◌, map, when,
  is_some, is_empty, if◌then◌else◌, length,
}
use Prim.Native.Char.{code}
use hestiva_os.Base.Text.{◌===◌, ◌<+>◌, is_space, is_blank, trim, starts_with}
use hestiva_os.Quotes.CostSource.{keep}
use hestiva_os.Quotes.Review.Decline.{or_null}

pub data MatchState : Type 0 where
  exact_existing_match likely_match_review_required no_match_new_candidate : MatchState
  ambiguous_multiple_matches invalid_or_insufficient_identity_data : MatchState

pub data MatchReadiness : Type 0 where
  ready review_required blocked : MatchReadiness

pub record MatchCandidate : Type 0 where
  pub id : String
  pub display_name : String
  pub evidence : List String
  pub context : String

pub record MatchResult : Type 0 where
  pub state : MatchState
  pub readiness : MatchReadiness
  pub candidates : List MatchCandidate

pub record CustomerIdentity : Type 0 where
  pub id : String
  pub name : String
  pub contact_name : Option String
  pub email : Option String
  pub phone : Option String

pub record PropertyIdentity : Type 0 where
  pub id : String
  pub name : String
  pub address_line_1 : String
  pub city : String
  pub postal_code : Option String
  pub country : String

-- The address of a submission.
pub record PropertyAddress : Type 0 where
  pub address_line_1 : String
  pub suburb : String
  pub postal_code : Option String
  pub country : String

-- `value?.… || null`
abbrev given_as : (String → String) → Option String → Option String
given_as f none = none
given_as f (some s) = or_null (f s)

unfoldable pub normalize_customer_phone : Option String → Option String
unfolding trim
normalize_customer_phone value = given_as trim value

-- `s.replace(/\s+/g, ' ')`: the rest begins with a blank just when a white space follows.
unfoldable pub collapse_spaces : String → String
unfolding is_space starts_with
collapse_spaces String.[] = ""
collapse_spaces (String.◌∷◌ c s) =
    let rest = collapse_spaces s in
    if is_space (code c)
    then (if starts_with " " rest then rest else " " <+> rest)
    else String.◌∷◌ c rest

-- `list.filter(Boolean).join(separator)`
unfoldable pub join_given : String → List (Option String) → String
join_given separator [] = ""
join_given separator (none ∷ rest) = join_given separator rest
join_given separator (some s ∷ rest) =
    let more = join_given separator rest in
    if is_blank s then more else if is_blank more then s else s <+> separator <+> more

abbrev pub text_or_empty : Option String → String
text_or_empty none = ""
text_or_empty (some s) = s

-- Two values of which both are there and equal.
abbrev pub agrees : Option String → Option String → Bool
agrees (some a) (some b) = b === a
agrees _ _ = false

-- The trimmed contact name, or else the name.
unfoldable pub display_name_of : CustomerIdentity → String
unfolding trim
display_name_of c = contact_or c.name (given_as trim c.contact_name)
  where
    contact_or : String → Option String → String
    contact_or name none = name
    contact_or name (some contact) = contact

abbrev pub evidence_by : (email phone : Bool) → List String
evidence_by email phone = when email "EMAIL" ++ when phone "MOBILE"

-- No match, one match, or several.
abbrev pub matched_as {ℓ} :
    {A : Type ℓ} → (A → MatchResult) → MatchResult → List A → (List A → MatchResult) → MatchResult
matched_as one no_match [] several = no_match
matched_as one no_match (a ∷ []) several = one a
matched_as one no_match (a ∷ b ∷ rest) several = several (a ∷ b ∷ rest)

abbrev pub insufficient : MatchResult
insufficient = record {
  state = invalid_or_insufficient_identity_data;
  readiness = blocked;
  candidates = [];
}

abbrev pub new_candidate : MatchResult
new_candidate = record { state = no_match_new_candidate; readiness = ready; candidates = [] }

-- `toLowerCase()`, and `toLocaleLowerCase('en-ZA')`.
module _ (to_lower_case to_locale_lower_case : String → String) where
  unfoldable pub normalize_customer_email : Option String → Option String
  unfolding trim
  normalize_customer_email value = given_as (λ s. to_lower_case (trim s)) value

  unfoldable pub normalized_text : Option String → Option String
  unfolding trim
  normalized_text value = given_as (λ s. collapse_spaces (to_locale_lower_case (trim s))) value

  abbrev part : Option String → String
  part value = text_or_empty (normalized_text value)

  -- The four parts, of which a missing one is empty, joined by bars.
  abbrev pub normalize_property_address : (line city : String) → Option String → String → String
  normalize_property_address line city postal_code country =
      part (some line)
      <+> "|"
      <+> part (some city)
      <+> "|"
      <+> part postal_code
      <+> "|"
      <+> part (some country)

  -- The evidence for one customer.
  unfoldable pub email_agrees : Option String → CustomerIdentity → Bool
  email_agrees email c = agrees (normalize_customer_email email) (normalize_customer_email c.email)

  unfoldable pub phone_agrees : Option String → CustomerIdentity → Bool
  phone_agrees phone c = agrees (normalize_customer_phone phone) (normalize_customer_phone c.phone)

  abbrev pub evidence_of : (email phone : Option String) → CustomerIdentity → List String
  evidence_of email phone c = evidence_by (email_agrees email c) (phone_agrees phone c)

  abbrev pub customer_candidate : (email phone : Option String) → CustomerIdentity → MatchCandidate
  customer_candidate email phone c = record {
    id = c.id;
    display_name = display_name_of c;
    evidence = evidence_of email phone c;
    context = join_given " · " (c.email ∷ c.phone ∷ []);
  }

  abbrev pub both_given : (email phone : Option String) → Bool
  both_given email phone =
      is_some (normalize_customer_email email) && is_some (normalize_customer_phone phone)

  abbrev pub one_customer : (email phone : Option String) → CustomerIdentity → MatchResult
  one_customer email phone c =
      let likely = both_given email phone && not (length (evidence_of email phone c) == 2) in
      record {
        state = if likely then likely_match_review_required else exact_existing_match;
        readiness = if likely then review_required else ready;
        candidates = customer_candidate email phone c ∷ [];
      }

  unfoldable pub resolve_customer_match :
      (email phone : Option String) → List CustomerIdentity → MatchResult
  unfolding keep
  resolve_customer_match email phone customers =
      if not (is_some (normalize_customer_email email))
        && not (is_some (normalize_customer_phone phone))
      then insufficient
      else matched_as (one_customer email phone) new_candidate
          (keep (λ c. not (is_empty (evidence_of email phone c))) customers)
          (λ cs. record {
            state = ambiguous_multiple_matches;
            readiness = review_required;
            candidates = map (customer_candidate email phone) cs;
          })

  abbrev pub address_agrees : PropertyAddress → PropertyIdentity → Bool
  address_agrees a p =
      normalize_property_address p.address_line_1 p.city p.postal_code p.country
      === normalize_property_address a.address_line_1 a.suburb a.postal_code a.country

  abbrev property_candidate : PropertyIdentity → MatchCandidate
  property_candidate p = record {
    id = p.id;
    display_name = p.name <+> " — " <+> p.address_line_1 <+> ", " <+> p.city;
    evidence = "ADDRESS" ∷ [];
    context = join_given " · " (p.postal_code ∷ some p.country ∷ []);
  }

  unfoldable pub resolve_property_match : PropertyAddress → List PropertyIdentity → MatchResult
  unfolding keep trim
  resolve_property_match a properties =
      if is_blank (trim a.address_line_1) || is_blank (trim a.suburb)
      then insufficient
      else matched_as
          (λ p. record {
            state = exact_existing_match;
            readiness = ready;
            candidates = property_candidate p ∷ [];
          })
          new_candidate (keep (address_agrees a) properties)
          (λ ps. record {
            state = ambiguous_multiple_matches;
            readiness = review_required;
            candidates = map property_candidate ps;
          })
