-- ===== src/Messaging/Draft.antt =====
-- `mergeProgressValue` of apps/api/src/messaging/messaging-quote-state.ts, on the drafts of quotes.
pub mod Laws
use hestiva_os.Base.Json.{
  Value, undefined, null, boolean, number, fraction, string, array, object, Elements, Fields,
  no_field, field, get, put, fields_of,
}

unfoldable mutual
  unfolding fields_of get put

  pub merge_progress_value : Value → Value → Value
  merge_progress_value current undefined = undefined
  merge_progress_value current null = null
  merge_progress_value current (boolean b) = boolean b
  merge_progress_value current (number n) = number n
  merge_progress_value current (fraction b n) = fraction b n
  merge_progress_value current (string s) = string s
  merge_progress_value current (array vs) = array vs
  merge_progress_value current (object patch) =
      object (merge_fields (fields_of current) (fields_of current) patch)

  -- The loop over the entries of the patch, from the fields merged so far.
  pub merge_fields : Fields → Fields → Fields → Fields
  merge_fields base merged no_field = merged
  merge_fields base merged (field key value patch) =
      merge_fields base (put key (merge_progress_value (get key base) value) merged) patch
