-- ===== src/Messaging/Facts/Photos.antt =====
-- The errors of the photos lie in their group of facts.
use hestiva_os.Base.{◌≡◌, refl, ℕ, suc, String, true, Option, none, some, List, []}
use hestiva_os.Base.Text.{starts_with, decimal}
use hestiva_os.Base.Json.{Value, array, object, Elements, none_left, element, Fields, get}
use hestiva_os.Messaging.Flow.{photos}
use hestiva_os.Quotes.Contract.Platform.{Platform}
use hestiva_os.Quotes.Contract.Photos.{
  base64_errors, hash_mismatch, previous_errors, identity_errors, transfer_data, photo_fields,
  validate_photo, photos_from, photos_at, photos_errors,
}
use hestiva_os.Messaging.Facts.Groups.{
  whole, inside, inside_append, starts_with-append, AllIn, group_rules, AllIn-append, AllIn-when,
  AllIn-string,
}

module _ (platform : Platform) where
  module _ (path : String) (in_photos : starts_with "photos." path ≡ true) where
    base64-AllIn : (s : String) → AllIn photos (base64_errors platform path s)
    unfolding base64_errors
    base64-AllIn s = search (group_rules, inside_append) depth 30

    mismatch-AllIn :
        (bytes : Option (List ℕ)) (hash : Option String)
        → AllIn photos (hash_mismatch platform path bytes hash)
    mismatch-AllIn (some bytes) (some hash) = search (group_rules, inside_append) depth 30
    mismatch-AllIn none hash = tt
    mismatch-AllIn (some bytes) none = tt

    previous-AllIn :
        (hash : String) (o : Option String) → AllIn photos (previous_errors platform path hash o)
    previous-AllIn hash none = tt
    previous-AllIn hash (some previous) = search (group_rules, inside_append) depth 30

    identity-AllIn :
        (id hash : Option String) (seen : List (String × String))
        → AllIn photos (identity_errors platform path id hash seen)
    identity-AllIn (some id) (some hash) seen = previous-AllIn hash _
    identity-AllIn none hash seen = tt
    identity-AllIn (some id) none seen = tt

    transfer-AllIn : (o : Option Fields) → AllIn photos (transfer_data platform path o).errors
    unfolding transfer_data
    transfer-AllIn none = tt
    transfer-AllIn (some fields) = AllIn-string photos fields _ _ (inside_append path _ in_photos)

    photo_fields-AllIn :
        (seen : List (String × String)) (fields : Fields)
        → AllIn photos (photo_fields platform path seen fields)
    unfolding photo_fields
    photo_fields-AllIn seen fields =
        search
          (group_rules, inside_append, base64-AllIn, mismatch-AllIn, identity-AllIn, transfer-AllIn)
          depth 40 fits 3000

    validate-AllIn :
        (seen : List (String × String)) (v : Value)
        → AllIn photos (validate_photo platform path seen v)
    unfolding validate_photo
    validate-AllIn seen (object fields) = photo_fields-AllIn seen fields
    validate-AllIn seen _ = (inside in_photos, tt)

  photos_from-AllIn :
      (index : ℕ) (seen : List (String × String)) (es : Elements)
      → AllIn photos (photos_from platform index seen es)
  unfolding photos_from starts_with
  photos_from-AllIn index seen none_left = tt
  photos_from-AllIn index seen (element v es) =
      AllIn-append photos _ _
        (validate-AllIn _ (starts_with-append "photos." "photos." (decimal index) refl) seen v)
        (photos_from-AllIn (suc index) _ es)

  photos_at-AllIn : (v : Value) → AllIn photos (photos_at platform v)
  unfolding photos_at starts_with
  photos_at-AllIn (array es) =
      AllIn-append photos _ _ (AllIn-when photos _ _ whole) (photos_from-AllIn 0 [] es)
  photos_at-AllIn _ = (whole, tt)

  pub photos-AllIn : (payload : Fields) → AllIn photos (photos_errors platform payload)
  unfolding photos_errors
  photos-AllIn payload = photos_at-AllIn (get "photos" payload)
