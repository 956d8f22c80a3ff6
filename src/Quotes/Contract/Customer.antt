-- ===== src/Quotes/Contract/Customer.antt =====
-- The checks of the customer in apps/api/src/quotes/website-quote-contract.ts.
use hestiva_os.Base.{String, not, List, [], ◌∷◌, ◌++◌, when}
use hestiva_os.Base.Text.{is_blank, trim}
use hestiva_os.Base.Eq.{string_eq}
use hestiva_os.Base.Pattern.{is_e164, is_email}
use hestiva_os.Base.Json.{Fields}
use hestiva_os.Quotes.Contract.Fields.{
  WebsiteQuoteContractError, error, required_record, required_string, enum_string, checked_with,
  fails,
}

abbrev pub preferred_contact : List String
preferred_contact = "PHONE" ∷ "EMAIL" ∷ "WHATSAPP" ∷ []

unfoldable pub customer_fields : Fields → List WebsiteQuoteContractError
unfolding required_string enum_string is_e164 is_email trim
customer_fields customer =
    let full_name = required_string customer "fullName" "customer.fullName" in
    let email = required_string customer "email" "customer.email" in
    let mobile = required_string customer "mobile" "customer.mobile" in
    full_name.errors
    ++ email.errors
    ++ mobile.errors
    ++ (enum_string customer "preferredContact" "customer.preferredContact"
        preferred_contact).errors
    ++ when (fails full_name.value (λ s. is_blank (trim s)))
        (error "customer.fullName" "REQUIRED" "Full name is required.")
    ++ when (fails email.value (λ s. not (is_email (trim s))))
        (error "customer.email" "INVALID_EMAIL" "Email address is invalid.")
    ++ when (fails mobile.value (λ s. not (is_e164 s)))
        (error "customer.mobile" "INVALID_E164" "Mobile number must be normalized to E.164.")

unfoldable pub customer_errors : Fields → List WebsiteQuoteContractError
unfolding required_record customer_fields
customer_errors payload =
    checked_with (required_record payload "customer" "customer") customer_fields
