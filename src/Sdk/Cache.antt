-- ===== src/Sdk/Cache.antt =====
-- totoggle_go/internal/cache/cache.go: the snapshot that evaluation reads, and the health of its
-- refreshes. Each method runs under the cache's lock, so it is one step. Times are numbers; the
-- zero time is `none`.
use to_toggle.Prelude.{
  ℕ, ◌+◌, Bool, true, false, Option, none, some, List, [], Text, is_empty, length, if◌then◌else◌,
}
use to_toggle.Sdk.Path.{FlagPath}
use to_toggle.Sdk.Catalog.{Flag, Catalog, empty_catalog, by_path, ancestors_of}
use to_toggle.Sdk.Errors.{Error}

pub record Stats : Type 0 where
  pub toggle_count : ℕ
  pub last_success_at : Option ℕ
  pub last_error_at : Option ℕ
  pub last_error : Option Error
  pub consecutive_failures : ℕ
  pub etag : Text
  pub revision : Text

abbrev pub zero_stats : Stats
zero_stats = record {
  toggle_count = 0;
  last_success_at = none;
  last_error_at = none;
  last_error = none;
  consecutive_failures = 0;
  etag = [];
  revision = [];
}

pub record Cache : Type 0 where
  pub app : Catalog
  pub stats : Stats
  pub has_catalog : Bool

-- New
abbrev pub new_cache : Cache
new_cache = record { app = empty_catalog; stats = zero_stats; has_catalog = false }

-- Cache.UpdateCatalog
unfoldable pub update_catalog : ℕ → Catalog → Text → Text → Cache → Cache
update_catalog now app etag revision c =
    let stats = c.stats in
    record {
      app = app;
      stats = record stats {
        toggle_count = length app.toggles;
        last_success_at = some now;
        consecutive_failures = 0;
        etag = etag;
        revision = revision;
      };
      has_catalog = true;
    }

-- Cache.RecordFreshness: the new cache, and whether there was a catalog to keep.
unfoldable pub record_freshness : ℕ → Text → Cache → Cache × Bool
record_freshness now etag c =
    let stats = c.stats in
    if c.has_catalog
    then (
      record c {
        stats = record stats {
          last_success_at = some now;
          consecutive_failures = 0;
          etag = if is_empty etag then stats.etag else etag;
        };
      },
      true,
    )
    else (c, false)

-- Cache.RecordFailure
unfoldable pub record_failure : ℕ → Error → Cache → Cache
record_failure now e c =
    let stats = c.stats in
    record c {
      stats = record stats {
        last_error_at = some now;
        last_error = some e;
        consecutive_failures = stats.consecutive_failures + 1;
      };
    }

-- Cache.Get
unfoldable pub get : FlagPath → Cache → Option (Flag × List Flag)
unfolding by_path ancestors_of
get p c = elim (by_path c.app p) [ none ↦ none | some t ↦ some (t, ancestors_of c.app p) ]

-- Cache.Clear
unfoldable pub clear : Cache → Cache
clear c = new_cache
