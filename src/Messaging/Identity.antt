-- ===== src/Messaging/Identity.antt =====
-- apps/api/src/messaging/customer-identity-resolution.ts. `sort` is `Array.prototype.sort` on the
-- customer ids.
pub mod Laws
use hestiva_os.Base.{
  String, Bool, true, false, not, ◌||◌, ◌&&◌, Option, none, some, List, [], ◌∷◌, if◌then◌else◌, any,
}
use hestiva_os.Base.Text.{◌===◌, is_blank}

pub record CustomerIdentityCandidate : Type 0 where
  pub customer_id : String
  pub contact_id : Option String
  pub trusted : Bool
  pub explicit_link : Bool

pub data CustomerIdentityResolution : Type 0 where
  matched : String → Option String → CustomerIdentityResolution
  unlinked : CustomerIdentityResolution
  ambiguous : List String → CustomerIdentityResolution
  -- the linked customer and the requested one
  conflict : String → String → CustomerIdentityResolution

abbrev pub is_trusted_explicit : CustomerIdentityCandidate → Bool
is_trusted_explicit c = c.trusted && c.explicit_link

abbrev pub has_customer : String → List CustomerIdentityCandidate → Bool
has_customer id cs = any (λ c. c.customer_id === id) cs

-- The values of `uniqueByCustomer`, in the order of their insertion, from the values so far: the
-- first trusted and explicit candidate of each customer.
unfoldable pub unique_by_customer :
    List CustomerIdentityCandidate → List CustomerIdentityCandidate → List CustomerIdentityCandidate
unique_by_customer seen [] = []
unique_by_customer seen (c ∷ cs) =
    let skip = unique_by_customer seen cs in
    let take = c ∷ unique_by_customer (c ∷ seen) cs in
    if is_trusted_explicit c && not (has_customer c.customer_id seen) then take else skip

abbrev pub ids : List CustomerIdentityCandidate → List String
ids [] = []
ids (c ∷ cs) = c.customer_id ∷ ids cs

abbrev pub resolve_one : CustomerIdentityCandidate → Option String → CustomerIdentityResolution
resolve_one c none = matched c.customer_id c.contact_id
resolve_one c (some requested) =
    if not (is_blank requested) && not (requested === c.customer_id)
    then conflict c.customer_id requested
    else matched c.customer_id c.contact_id

abbrev resolve_unique :
    (List String → List String)
    → List CustomerIdentityCandidate
    → Option String
    → CustomerIdentityResolution
resolve_unique sort [] requested = unlinked
resolve_unique sort (c ∷ []) requested = resolve_one c requested
resolve_unique sort (c ∷ d ∷ cs) requested = ambiguous (sort (ids (c ∷ d ∷ cs)))

unfoldable pub resolve_customer_messaging_identity :
    (List String → List String)
    → List CustomerIdentityCandidate
    → Option String
    → CustomerIdentityResolution
unfolding unique_by_customer
resolve_customer_messaging_identity sort candidates requested =
    resolve_unique sort (unique_by_customer [] candidates) requested
