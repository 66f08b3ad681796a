-- ===== src/Sdk/Fetch.antt =====
-- totoggle_go/internal/serverapi/fetch.go: one request for the catalog. The HTTP client and the
-- JSON decoder of the response are not this library's: what comes back is a `Reply`, and `decode`
-- reads a body.
use to_toggle.Prelude.{
  ℕ, ◌≡◌, Bool, true, false, ◌||◌, not, Option, none, some, List, [], Text, is_empty, len, ltb, leb,
  ◌==◌, all, first, ◌⊎◌, arith, if◌then◌else◌,
}
use mathlib.Core.List.{get_last?}
use to_toggle.Sdk.Catalog.{Flag, Catalog, empty_catalog, new_application}
use to_toggle.Sdk.Errors.{
  Error, building_request, request_failed, authentication, decoding, unexpected_status,
}

pub data Reply : Type 0 where
  cannot_build : Reply
  no_reply : Reply
  reply : ℕ → Text → Text → Reply  -- status, ETag header, body

pub record FetchResult : Type 0 where
  pub application : Catalog
  pub etag : Text
  pub revision : Text
  pub not_modified : Bool

pub data Fetched : Type 0 where
  fetched : FetchResult → Fetched
  failed : Error → Fetched

abbrev pub is_quote : Option ℕ → Bool
is_quote none = false
is_quote (some c) = c == b'"'

-- A character that may stand in a header's value.
abbrev pub is_header_char : ℕ → Bool
is_header_char c = not (leb c 31 || c == 127)

-- safeETag
unfoldable pub safe_etag : Text → Bool
safe_etag value =
    if ltb (len value) 2
      || ltb 1024 (len value)
      || not (is_quote (first value))
      || not (is_quote (get_last? value))
    then false
    else all is_header_char value

-- The two places that drop an unsafe header.
unfoldable pub keep_safe : Text → Text
keep_safe etag = if not (safe_etag etag) then [] else etag

-- Fetcher.Fetch, from the reply on. `decode` gives the toggles and the revision.
unfoldable pub read_reply : (Text → Option (List Flag × Text)) → Reply → Fetched
unfolding keep_safe
read_reply decode cannot_build = failed building_request
read_reply decode no_reply = failed request_failed
read_reply decode (reply status etag body) =
    if status == 401 || status == 404
    then failed authentication
    else if status == 304
    then fetched (record {
      application = empty_catalog;
      etag = keep_safe etag;
      revision = [];
      not_modified = true;
    })
    else if not (status == 200)
    then failed (unexpected_status status)
    else elim (decode body) [
      | none ↦ failed decoding
      | some (toggles, revision) ↦ fetched (record {
        application = new_application toggles;
        etag = keep_safe etag;
        revision = revision;
        not_modified = false;
      })
    ]

-- The If-None-Match header of the request: none when there is no validator.
unfoldable pub if_none_match : Text → Option Text
if_none_match etag = if is_empty etag then none else some etag

-- A retained validator is empty or a bounded quoted tag with no control character.
pub keep_safe_lem : (etag : Text) → (keep_safe etag ≡ []) ⊎ (safe_etag (keep_safe etag) ≡ true)
unfolding keep_safe
keep_safe_lem etag = ground arith
