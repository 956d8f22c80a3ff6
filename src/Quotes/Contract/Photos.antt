-- ===== src/Quotes/Contract/Photos.antt =====
-- The checks of the photos in apps/api/src/quotes/website-quote-contract.ts.
use hestiva_os.Base.{
  ℕ, suc, String, Bool, true, false, not, ◌&&◌, Option, none, some, List, [], ◌∷◌, ◌++◌, when,
  if◌then◌else◌, ltb, ◌==◌, length, is_some,
}
use hestiva_os.Base.Text.{◌===◌, ◌<+>◌, is_blank, trim, starts_with, decimal}
use hestiva_os.Base.Number.{nat, minus, is_integer_from}
use hestiva_os.Base.Eq.{string_eq}
use hestiva_os.Base.Pattern.{matches, uuid_pattern, sha256_pattern, matches_base64}
use hestiva_os.Base.Json.{Value, number, array, object, Elements, none_left, element, Fields, get}
use hestiva_os.Quotes.Contract.Platform.{Platform}
use hestiva_os.Quotes.Contract.Fields.{
  WebsiteQuoteContractError, error, Checked, required_record, required_string, given, fails,
  is_string,
}

-- `Number.isInteger(byteSize) && byteSize !== length`
abbrev pub is_other_size : ℕ → Value → Bool
is_other_size size (number (nat n)) = not (n == size)
is_other_size size (number (minus n)) = true
is_other_size size _ = false

abbrev pub is_size : Value → Bool
is_size (number n) = is_integer_from 1 n
is_size _ = false

-- `payload.photos.length`
abbrev pub count : Elements → ℕ
count none_left = 0
count (element _ rest) = suc (count rest)

unfoldable pub is_hash : String → Bool
unfolding matches
is_hash s = matches sha256_pattern s

-- The hash of each photo identity that has been seen.
abbrev pub photo_hash : String → List (String × String) → Option String
photo_hash id [] = none
photo_hash id ((k, hash) ∷ rest) =
    let later = photo_hash id rest in if k === id then some hash else later

-- A text that is there and not empty.
abbrev pub present : Option String → Option String
present none = none
present (some s) = if is_blank s then none else some s

-- `sha256 && SHA256_PATTERN.test(sha256)`
abbrev pub valid_hash : Option String → Option String
valid_hash none = none
valid_hash (some s) = if not (is_blank s) && is_hash s then some s else none

module _ (platform : Platform) where
  -- The bytes of base64 data of the right form.
  unfoldable pub decoded_bytes : Option String → Option (List ℕ)
  unfolding matches_base64
  decoded_bytes none = none
  decoded_bytes (some s) = if matches_base64 s then some (platform.from_base64 s) else none

  unfoldable pub base64_errors : String → String → List WebsiteQuoteContractError
  unfolding matches_base64
  base64_errors path s =
      if matches_base64 s
      then when (not (platform.to_base64 (platform.from_base64 s) === s)) (
          error (path <+> ".transfer.dataBase64") "INVALID_BASE64"
            "Photo upload data must be canonical base64.")
      else error (path <+> ".transfer.dataBase64") "INVALID_BASE64"
          "Photo upload data must be valid canonical base64."
        ∷ []

  abbrev pub hash_mismatch :
      String → Option (List ℕ) → Option String → List WebsiteQuoteContractError
  hash_mismatch path (some bytes) (some hash) =
      when (not (platform.sha256_hex bytes === platform.to_lower hash)) (
        error (path <+> ".sha256") "SHA256_MISMATCH"
          "Photo SHA-256 does not match received upload bytes.")
  hash_mismatch path _ _ = []

  -- A hash against the one that its photo identity had before.
  abbrev pub previous_errors : String → String → Option String → List WebsiteQuoteContractError
  previous_errors path hash none = []
  previous_errors path hash (some previous) =
      if not (previous === platform.to_lower hash)
      then error (path <+> ".clientPhotoId") "PHOTO_ID_HASH_CONFLICT"
          "The same photo ID cannot identify different content."
        ∷ []
      else error (path <+> ".clientPhotoId") "DUPLICATE"
          "Duplicate photo identity is not allowed within one payload."
        ∷ []

  abbrev pub identity_errors :
      String
      → Option String
      → Option String
      → List (String × String)
      → List WebsiteQuoteContractError
  identity_errors path (some id) (some hash) seen =
      previous_errors path hash (present (photo_hash id seen))
  identity_errors path _ _ seen = []

  abbrev pub hashes_after :
      Option String → Option String → List (String × String) → List (String × String)
  hashes_after (some id) (some hash) seen =
      if is_some (present (photo_hash id seen)) then seen else (id, platform.to_lower hash) ∷ seen
  hashes_after _ _ seen = seen

  unfoldable pub transfer_data : String → Option Fields → Checked String
  unfolding required_string
  transfer_data path none = record { errors = []; value = none }
  transfer_data path (some transfer) =
      required_string transfer "dataBase64" (path <+> ".transfer.dataBase64")

  unfoldable pub photo_fields :
      String → List (String × String) → Fields → List WebsiteQuoteContractError
  unfolding required_string required_record get trim matches
  photo_fields path seen photo =
      let id = required_string photo "clientPhotoId" (path <+> ".clientPhotoId") in
      let file_name = required_string photo "fileName" (path <+> ".fileName") in
      let content_type = required_string photo "contentType" (path <+> ".contentType") in
      let sha256 = required_string photo "sha256" (path <+> ".sha256") in
      let byte_size = get "byteSize" photo in
      let transfer = required_record photo "transfer" (path <+> ".transfer") in
      let upload = transfer_data path transfer.value in
      let bytes = decoded_bytes (present upload.value) in
      id.errors
      ++ file_name.errors
      ++ content_type.errors
      ++ sha256.errors
      ++ transfer.errors
      ++ when (fails id.value (λ s. not (matches uuid_pattern s)))
          (error (path <+> ".clientPhotoId") "INVALID_UUID" "Photo ID must be a UUID.")
      ++ when (fails file_name.value (λ s. is_blank (trim s)))
          (error (path <+> ".fileName") "REQUIRED" "Photo file name is required.")
      ++ when (fails content_type.value (λ s. not (starts_with "image/" s))) (
          error (path <+> ".contentType") "INVALID_CONTENT_TYPE"
            "Quote photos must use an image content type.")
      ++ when (not (is_size byte_size)) (
          error (path <+> ".byteSize") "INVALID_SIZE" "Photo byte size must be a positive integer.")
      ++ when (fails sha256.value (λ s. not (is_hash s))) (
          error (path <+> ".sha256") "INVALID_SHA256"
            "Photo SHA-256 must be 64 hexadecimal characters.")
      ++ given transfer.value (λ t. when (not (is_string "UPLOAD" (get "kind" t))) (
          error (path <+> ".transfer.kind") "INVALID_TRANSFER_KIND"
            "Photo transfer kind must be UPLOAD."))
      ++ upload.errors
      ++ given (present upload.value) (base64_errors path)
      ++ given bytes (λ b. when (is_other_size (length b) byte_size) (
          error (path <+> ".byteSize") "BYTE_SIZE_MISMATCH"
            "Photo byte size does not match received upload bytes."))
      ++ hash_mismatch path bytes (valid_hash sha256.value)
      ++ identity_errors path (present id.value) (valid_hash sha256.value) seen

  unfoldable pub validate_photo :
      String → List (String × String) → Value → List WebsiteQuoteContractError
  unfolding photo_fields
  validate_photo path seen (object photo) = photo_fields path seen photo
  validate_photo path seen _ = error path "INVALID_OBJECT" "Each photo must be an object." ∷ []

  unfoldable pub photo_seen : List (String × String) → Value → List (String × String)
  unfolding required_string
  photo_seen seen (object photo) =
      hashes_after (present (required_string photo "clientPhotoId" "").value)
        (valid_hash (required_string photo "sha256" "").value) seen
  photo_seen seen _ = seen

  -- `payload.photos.forEach(...)`, from an index and the hashes seen before it.
  unfoldable pub photos_from :
      ℕ → List (String × String) → Elements → List WebsiteQuoteContractError
  unfolding validate_photo photo_seen decimal
  photos_from index seen none_left = []
  photos_from index seen (element photo rest) =
      validate_photo ("photos." <+> decimal index) seen photo
      ++ photos_from (suc index) (photo_seen seen photo) rest

  unfoldable pub photos_at : Value → List WebsiteQuoteContractError
  unfolding photos_from
  photos_at (array photos) =
      when (ltb 10 (count photos))
        (error "photos" "TOO_MANY" "A website quote may contain at most 10 customer photos.")
      ++ photos_from 0 [] photos
  photos_at _ = error "photos" "INVALID_ARRAY" "photos must be an array." ∷ []

  unfoldable pub photos_errors : Fields → List WebsiteQuoteContractError
  unfolding get
  photos_errors payload = photos_at (get "photos" payload)
