-- ===== src/Quotes/Submission.antt =====
-- The facts of a submission that pricing and costing read, from
-- apps/api/src/quotes/website-quote-contract.ts, website-quote-contract-v2.ts and
-- quote-operational-cost-source.ts. Contact, visit, access and note fields are left out: pricing does
-- not look at them. A union of string literals is a data type; an absent property is `none`.
use hestiva_os.Base.{ℕ, String, Bool, Option, none, some, List}
use hestiva_os.Quotes.PostEvent.{FloorSize, PostEventFacts}
use hestiva_os.Quotes.Laundry.{LaundryFacilities}
use hestiva_os.Base.Number.{Number}

pub data Bedrooms : Type 0 where
  studio one two three four five_plus other : Bedrooms

pub data Bathrooms : Type 0 where
  one two three four five_plus : Bathrooms

pub data LivingAreas : Type 0 where
  one two three four_plus : LivingAreas

pub record PropertyInput : Type 0 where
  pub floor_size : FloorSize
  pub bedrooms : Bedrooms
  pub bathrooms : Bathrooms
  pub living_areas : LivingAreas

pub record AddOnInput : Type 0 where
  pub website_value : String
  pub canonical_service : String
  pub quantity : Option ℕ

pub record WebsiteLaundryRequest : Type 0 where
  pub facilities : Option LaundryFacilities
  pub laundry_loads : Option Number
  pub ironing_loads : Option Number

pub record ServiceRequestInput : Type 0 where
  pub canonical_service : Option String
  pub add_ons : List AddOnInput
  pub eco_friendly_products : Option Bool
  pub laundry : Option WebsiteLaundryRequest
  pub post_event : Option PostEventFacts

pub record QuotePricingInput : Type 0 where
  pub schema_version : Option String
  pub property : PropertyInput
  pub request : ServiceRequestInput

-- A canonical service that is truthy: not null and not the empty string.
unfoldable pub truthy_service : Option String → Option String
truthy_service none = none
truthy_service (some String.[]) = none
truthy_service (some (String.◌∷◌ c s)) = some (String.◌∷◌ c s)

-- `COUNT_VALUE`, which the cost model and the pricing declare alike, at the three counts.
unfoldable pub bedroom_count : Bedrooms → Option ℕ
bedroom_count studio = some 1
bedroom_count one = some 1
bedroom_count two = some 2
bedroom_count three = some 3
bedroom_count four = some 4
bedroom_count five_plus = some 5
bedroom_count other = none

unfoldable pub bathroom_count : Bathrooms → ℕ
bathroom_count one = 1
bathroom_count two = 2
bathroom_count three = 3
bathroom_count four = 4
bathroom_count five_plus = 5

unfoldable pub living_area_count : LivingAreas → ℕ
living_area_count one = 1
living_area_count two = 2
living_area_count three = 3
living_area_count four_plus = 4
