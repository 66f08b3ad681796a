-- ===== src/Sdk/Client/Health.antt =====
-- What a refresh keeps and what it changes.
use to_toggle.Prelude.{
  ℕ, ◌+◌, ◌≡◌, refl, ◌⊎◌, inl, inr, Bool, true, false, ◌||◌, Option, none, some, List, [], ◌∷◌,
  Text, length, arith, Bool-cases, if◌then◌else◌,
}
use to_toggle.Sdk.Catalog.{Flag, empty_catalog}
use to_toggle.Sdk.Errors.{Error, refresh_failure, already_shutdown}
use to_toggle.Sdk.Cache.{Stats, Cache}
use to_toggle.Sdk.Fetch.{
  Reply, Fetched, FetchResult, fetched, failed, read_reply, safe_etag, keep_safe_lem,
}
use to_toggle.Sdk.Client.Refresh.{Client, apply_fetched, refresh_once}

-- A refresh that fails touches neither the toggles that evaluation reads, nor the validator, nor
-- the time of the last success. Where the client was shut down before it or during its fetch, the
-- error says so, the cache stays as it was, and no listener hears of it. Otherwise it records the
-- error, counts one more failure, and tells the listeners both.
pub refresh_once_failure :
    (now : ℕ) (fetch : Text → Fetched) (raised : Bool) (c : Client) (e : Error)
    → (refresh_once now fetch raised c).1 ≡ some e
    → let (c', x, notices) = refresh_once now fetch raised c in
      let failures = c.cache.stats.consecutive_failures + 1 in
      (c'.cache.app ≡ c.cache.app)
      × (c'.cache.has_catalog ≡ c.cache.has_catalog)
      × (c'.cache.stats.etag ≡ c.cache.stats.etag)
      × (c'.cache.stats.last_success_at ≡ c.cache.stats.last_success_at)
      × (((c.shutdown || raised ≡ true)
            × (e ≡ already_shutdown)
            × (c'.cache ≡ c.cache)
            × (notices ≡ []))
          ⊎ ((c.shutdown || raised ≡ false)
              × (c'.cache.stats.last_error ≡ some e)
              × (c'.cache.stats.consecutive_failures ≡ failures)
              × (notices ≡ refresh_failure e failures ∷ [])))
unfolding refresh_once
refresh_once_failure now fetch raised c e h = elim (Bool-cases (c.shutdown || raised)) [
  | inl down ↦ ground arith
  | inr up ↦ ground arith
]

-- A refresh that succeeds resets the count of failures, notes the time, and leaves a catalog that
-- is the fetched one, or the one already there if the server answered that it has not changed.
pub refresh_once_success :
    (now : ℕ) (fetch : Text → Fetched) (raised : Bool) (c : Client)
    → (refresh_once now fetch raised c).1 ≡ none
    → let c' = (refresh_once now fetch raised c).0 in
      (c'.cache.stats.consecutive_failures ≡ 0)
      × (c'.cache.stats.last_success_at ≡ some now)
      × (c'.cache.has_catalog ≡ true)
      × ((r : FetchResult) × (fetch c.cache.stats.etag ≡ fetched r)
          × (c'.cache.app ≡ (if r.not_modified then c.cache.app else r.application)))
unfolding refresh_once
refresh_once_success now fetch raised c h = ground arith

-- A cache counts the toggles that it holds, holds none before the first catalog, and keeps no
-- validator that is not a safe header.
pub record IsCoherent (c : Cache) : Type 0 where
  pub counted : c.stats.toggle_count ≡ length c.app.toggles
  pub none_yet : c.has_catalog ≡ false → c.app ≡ empty_catalog
  pub etag_safe : (c.stats.etag ≡ []) ⊎ (safe_etag c.stats.etag ≡ true)

-- What a fetch may give: a validator that is safe.
abbrev IsSafeResult : Fetched → Type 0
IsSafeResult f = (r : FetchResult) → f ≡ fetched r → (r.etag ≡ []) ⊎ (safe_etag r.etag ≡ true)

read_reply-IsSafeResult :
    (decode : Text → Option (List Flag × Text)) (r : Reply) → IsSafeResult (read_reply decode r)
unfolding read_reply
read_reply-IsSafeResult decode Reply.cannot_build f h = cc
read_reply-IsSafeResult decode Reply.no_reply f h = cc
read_reply-IsSafeResult decode (Reply.reply status etag body) f h =
    ground (arith, keep_safe_lem etag)

apply_fetched-IsCoherent :
    (now : ℕ) (before : Stats) (f : Fetched) (c : Cache)
    → IsSafeResult f
    → IsCoherent c
    → IsCoherent (apply_fetched now before f c).0
unfolding apply_fetched
apply_fetched-IsCoherent now before (failed e) c s h = ground arith
apply_fetched-IsCoherent now before (fetched r) c s h = ground (arith, s r refl)

-- A refresh over HTTP keeps the cache coherent, whatever the server replies, also when a shutdown
-- comes during the fetch.
pub refresh_once-IsCoherent :
    (now : ℕ) (decode : Text → Option (List Flag × Text)) (send : Text → Reply) (raised : Bool)
    (c : Client)
    → IsCoherent c.cache
    → IsCoherent (refresh_once now (λ etag. read_reply decode (send etag)) raised c).0.cache
unfolding refresh_once
refresh_once-IsCoherent now decode send raised c h = elim (Bool-cases c.shutdown) [
  | inl down ↦ rw down h
  | inr up ↦ elim (Bool-cases raised) [
    | inl late ↦ rw (up, late) h
    | inr in_time ↦
        rw (up, in_time)
          (apply_fetched-IsCoherent now c.cache.stats (read_reply decode (send c.cache.stats.etag))
            c.cache (read_reply-IsSafeResult decode (send c.cache.stats.etag)) h)
  ]
]
