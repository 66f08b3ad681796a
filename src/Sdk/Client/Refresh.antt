-- ===== src/Sdk/Client/Refresh.antt =====
-- totoggle_go/client.go: refreshOnce and its callers, IsHealthy and IsStale. A refresh reads the
-- cache's validator, fetches, looks at the shutdown flag again, and applies what came back.
use to_toggle.Prelude.{
  ℕ, ◌-◌, ◌*◌, ◌%◌, ◌^◌, Bool, true, false, ◌&&◌, not, Option, none, some, List, [], ◌∷◌, Text,
  is_some, length, ltb, if◌then◌else◌,
}
use to_toggle.Sdk.Errors.{
  Error, Notice, refresh_success, refresh_failure, not_modified_before_catalog, not_started,
  already_shutdown,
}
use to_toggle.Sdk.Cache.{
  Stats, Cache, new_cache, update_catalog, record_freshness, record_failure, clear,
}
use to_toggle.Sdk.Fetch.{Fetched, fetched, failed}

pub record Client : Type 0 where
  pub refresh_interval : ℕ
  pub started : Bool
  pub shutdown : Bool
  pub cache : Cache

-- New
unfoldable pub new_client : ℕ → Client
new_client interval = record {
  refresh_interval = interval;
  started = false;
  shutdown = false;
  cache = new_cache;
}

-- A failed refresh: it is recorded, and the listeners are told the new count.
unfoldable pub fail_refresh : ℕ → Error → Cache → Cache × Option Error × List Notice
unfolding record_failure
fail_refresh now e c =
    let c' = record_failure now e c in
    (c', some e, refresh_failure e c'.stats.consecutive_failures ∷ [])

-- The end of Client.refreshOnce, once the shutdown flag was found unset after the fetch. `before`
-- is what Stats gave before the fetch.
unfoldable pub apply_fetched : ℕ → Stats → Fetched → Cache → Cache × Option Error × List Notice
unfolding fail_refresh record_freshness update_catalog
apply_fetched now before (failed e) c = fail_refresh now e c
apply_fetched now before (fetched r) c =
    if r.not_modified
    then (let (c', kept) = record_freshness now r.etag c in
        if kept
        then (c', none, refresh_success before.toggle_count ∷ [])
        else fail_refresh now not_modified_before_catalog c')
    else (
      update_catalog now r.application r.etag r.revision c,
      none,
      refresh_success (length r.application.toggles) ∷ [],
    )

-- Client.refreshOnce. `raised` says whether Shutdown sets the flag during the fetch: then the second
-- look finds it, and what was fetched is dropped. Shutdown clears the cache later, since it waits
-- for the lock that is held here.
unfoldable pub refresh_once :
    ℕ → (Text → Fetched) → Bool → Client → Client × Option Error × List Notice
unfolding apply_fetched
refresh_once now fetch raised c =
    if c.shutdown
    then (c, some already_shutdown, [])
    else (let cache = c.cache in
        let got = fetch cache.stats.etag in
        let (cache', e, notices) = apply_fetched now cache.stats got cache in
        if raised
        then (record c { shutdown = true }, some already_shutdown, [])
        else (record c { cache = cache' }, e, notices))

-- Client.requireUsable
unfoldable pub require_usable : Client → Option Error
require_usable c =
    if c.shutdown then some already_shutdown else if not c.started then some not_started else none

-- Client.Refresh
unfoldable pub refresh : ℕ → (Text → Fetched) → Bool → Client → Client × Option Error × List Notice
unfolding require_usable refresh_once
refresh now fetch raised c = elim (require_usable c) [
  | some e ↦ (c, some e, [])
  | none ↦ refresh_once now fetch raised c
]

-- Client.Start, up to the launch of the refresh loop; a failed first fetch is no error of Start.
unfoldable pub start : ℕ → (Text → Fetched) → Bool → Client → Client × Option Error × List Notice
unfolding refresh_once
start now fetch raised c =
    if c.shutdown
    then (c, some already_shutdown, [])
    else if c.started
    then (c, none, [])
    else (let (c', e, notices) = refresh_once now fetch raised (record c { started = true }) in
        (c', none, notices))

-- Client.Shutdown, with no refresh in flight.
unfoldable pub shut_down : Client → Client
unfolding clear
shut_down c = if c.shutdown then c else record c { shutdown = true; cache = clear c.cache }

-- `time.Since(last) > RefreshInterval*2`: the product wraps as an int64, and what wraps is negative.
unfoldable pub exceeds_twice : ℕ → ℕ → Bool
exceeds_twice interval age =
    let twice = interval * 2 % 2 ^ 64 in if ltb twice (2 ^ 63) then ltb twice age else true

-- Client.isStale
unfoldable pub is_stale : ℕ → Client → Bool
unfolding exceeds_twice
is_stale now c = elim c.cache.stats.last_success_at [
  | none ↦ true
  | some last ↦ exceeds_twice c.refresh_interval (now - last)
]

-- Client.IsHealthy
unfoldable pub is_healthy : ℕ → Client → Bool
unfolding is_stale
is_healthy now c =
    c.started && not c.shutdown && is_some c.cache.stats.last_success_at && not (is_stale now c)
