-- ===== src/Quotes/Review/Resolve.antt =====
-- `recordResolution` of apps/api/src/quotes/quote-review.service.ts.
use hestiva_os.Base.{
  ℕ, ◌==◌, String, Bool, true, false, not, ◌||◌, ◌&&◌, Option, none, some, ◌∷◌, if◌then◌else◌,
}
use hestiva_os.Base.Number.{Number}
use hestiva_os.Base.Text.{is_blank}
use hestiva_os.Base.Result.{Result, ok, err, ◌>>=◌, ◌>>◌, throw_if}
use hestiva_os.Messaging.Flow.{is_given}
use hestiva_os.Quotes.Intake.Records.{match_resolution_recorded}
use hestiva_os.Quotes.Review.Rows.{
  QuoteEntityResolution, use_existing, create_new, ReviewActivity, ReviewedQuote, ReviewedQuotes,
  ReviewError, actor_required, stale_revision, decision_invalid, id_mismatch, different_resolution,
  customer_missing, property_missing, property_of_other, new_customer_existing_property,
  validate_expected_revision, same_id, found_quote, Decision, stays, becomes, decided,
}

-- What is sent about a customer or a property; a decision outside the enumeration is `none`.
pub record EntityInput : Type 0 where
  pub decision : Option QuoteEntityResolution
  pub id : Option String

-- The decision, with the id of the existing row or null.
pub record Chosen : Type 0 where
  pub decision : QuoteEntityResolution
  pub id : Option String

abbrev pub is_use_existing : QuoteEntityResolution → Bool
is_use_existing use_existing = true
is_use_existing create_new = false

abbrev with_id : QuoteEntityResolution → Option String → Chosen
with_id use_existing id = record { decision = use_existing; id = id }
with_id create_new id = record { decision = create_new; id = none }

abbrev chosen_as : Option QuoteEntityResolution → Option String → Result ReviewError Chosen
chosen_as none id = err decision_invalid
chosen_as (some use_existing) id =
    throw_if (not (is_given id)) id_mismatch >> ok (with_id use_existing id)
chosen_as (some create_new) id = throw_if (is_given id) id_mismatch >> ok (with_id create_new id)

unfoldable pub validate_entity : EntityInput → Result ReviewError Chosen
validate_entity i = chosen_as i.decision i.id

abbrev pub same_resolution : Option QuoteEntityResolution → QuoteEntityResolution → Bool
same_resolution none d = false
same_resolution (some use_existing) use_existing = true
same_resolution (some create_new) create_new = true
same_resolution (some _) _ = false

abbrev pub has_same : ℕ → Chosen → Chosen → ReviewedQuote → ℕ → Bool
has_same expected customer property q at =
    at == expected
    && same_resolution q.customer_resolution customer.decision
    && same_resolution q.property_resolution property.decision
    && same_id q.customer_id customer.id
    && same_id q.property_id property.id

abbrev resolution_activity : String → ℕ → ReviewActivity
resolution_activity actor expected = record {
  type = match_resolution_recorded;
  new_status = none;
  actor_user_id = actor;
  note = none;
  expected_revision_number = some expected;
}

abbrev pub resolved_quote : String → ℕ → Chosen → Chosen → ReviewedQuote → ReviewedQuote
resolved_quote actor expected customer property q = record q {
  customer_resolution = some customer.decision;
  property_resolution = some property.decision;
  customer_id = customer.id;
  property_id = property.id;
  resolution_revision_number = some expected;
  activities = resolution_activity actor expected ∷ q.activities;
}

-- The customers that exist, and the customer of each property that exists.
module _ (has_customer : String → Bool) (customer_of : String → Option String) where
  abbrev pub check_customer : Option String → Result ReviewError (Unit {0})
  check_customer none = ok tt
  check_customer (some id) = throw_if (not (is_blank id) && not (has_customer id)) customer_missing

  abbrev pub check_owner : Option String → Option String → Result ReviewError (Unit {0})
  check_owner customer none = err property_missing
  check_owner customer (some owner) =
      throw_if (not (is_given customer) || not (same_id customer (some owner))) property_of_other

  abbrev pub check_property : Option String → Option String → Result ReviewError (Unit {0})
  check_property customer none = ok tt
  check_property customer (some id) =
      if is_blank id then ok tt else check_owner customer (customer_of id)

  unfoldable pub resolve_anew :
      String → ℕ → Chosen → Chosen → ReviewedQuote → Result ReviewError Decision
  resolve_anew actor expected customer property q =
      check_customer customer.id
      >> check_property customer.id property.id
      >> throw_if (not (is_use_existing customer.decision) && is_use_existing property.decision)
          new_customer_existing_property
      >> ok (becomes (resolved_quote actor expected customer property q))

  abbrev pub resolve_after :
      Option ℕ → String → ℕ → Chosen → Chosen → ReviewedQuote → Result ReviewError Decision
  resolve_after none actor expected customer property q =
      resolve_anew actor expected customer property q
  resolve_after (some at) actor expected customer property q =
      if has_same expected customer property q at then ok stays else err different_resolution

  unfoldable pub resolve_quote :
      String → ℕ → Chosen → Chosen → ReviewedQuote → Result ReviewError Decision
  unfolding resolve_anew
  resolve_quote actor expected customer property q =
      throw_if (not (q.current_revision_number == expected)) stale_revision
      >> resolve_after q.resolution_revision_number actor expected customer property q

  unfoldable pub record_resolution :
      String
      → Number
      → (customer property : EntityInput) → String
      → ReviewedQuotes
      → Result ReviewError ReviewedQuotes
  unfolding validate_entity
  record_resolution id revision customer property actor t =
      validate_expected_revision revision >>= λ expected.
      throw_if (is_blank actor) actor_required
      >> (validate_entity customer >>= λ c. validate_entity property >>= λ p.
          found_quote (t id) >>= λ q.
          resolve_quote actor expected c p q >>= λ d. ok (decided id t d))
