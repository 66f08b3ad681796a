-- ===== src/Sdk/Client/Tests.antt =====
-- Runs of the client, and instances of its theorems.
use to_toggle.Prelude.{
  ◌+◌, ◌-◌, ◌/◌, ◌≤◌, ◌≡◌, refl, ◌⊎◌, inl, true, false, none, some, [], ◌∷◌, Text, codes, arith,
}
use Prim.Native.Nat.{min}
use to_toggle.Sdk.Errors.{request_failed, already_shutdown, refresh_failure}
use to_toggle.Sdk.Cache.{Cache, new_cache}
use to_toggle.Sdk.Fetch.{Reply, reply, Fetched, failed, read_reply}
use to_toggle.Sdk.Samples.{flags, noon}
use to_toggle.Sdk.Client.Evaluate.{is_active}
use to_toggle.Sdk.Client.Refresh.{Client, new_client, refresh_once}
use to_toggle.Sdk.Client.Health.{refresh_once_failure, IsCoherent, refresh_once-IsCoherent}
use to_toggle.Sdk.Client.Backoff.{later, backoff_delay, target_delay, backoff_delay_bounds}
use to_toggle.Sdk.Client.Lifecycle.{
  Life, new_life, Step, flag, wipe, lock, Reach, here, next, reading, shutdown_is_final,
  shutdown_fails_closed, launch,
}

abbrev client : Client
client = new_client 300

refresh_fails :
    (refresh_once 5 (λ etag. failed request_failed) false client).1 ≡ some request_failed
unfolding refresh_once new_client
refresh_fails = refl

refresh_once_failure_example :
    let (c', x, notices) = refresh_once 5 (λ etag. failed request_failed) false client in
    (c'.cache.app ≡ client.cache.app)
    × (c'.cache.has_catalog ≡ client.cache.has_catalog)
    × (c'.cache.stats.etag ≡ client.cache.stats.etag)
    × (c'.cache.stats.last_success_at ≡ client.cache.stats.last_success_at)
    × (((false ≡ true)
          × (request_failed ≡ already_shutdown)
          × (c'.cache ≡ client.cache)
          × (notices ≡ []))
        ⊎ ((false ≡ false)
            × (c'.cache.stats.last_error ≡ some request_failed)
            × (c'.cache.stats.consecutive_failures ≡ 1)
            × (notices ≡ refresh_failure request_failed 1 ∷ [])))
unfolding new_client
refresh_once_failure_example =
    refresh_once_failure 5 (λ etag. failed request_failed) false client request_failed refresh_fails

late_reply_is_dropped :
    refresh_once 5 (λ etag. failed request_failed) true client
    ≡ (record client { shutdown = true }, some already_shutdown, [])
unfolding refresh_once new_client
late_reply_is_dropped = refl

-- A server that answers with the sample toggles.
abbrev answer : Text → Reply
answer etag = reply 200 (codes "\"v1\"") (codes "body")

abbrev serve : Text → Fetched
serve etag = read_reply (λ body. some (flags, codes "1")) (answer etag)

refresh_works : (refresh_once 5 serve false client).1 ≡ none
unfolding refresh_once new_client read_reply
refresh_works = refl

new_cache-IsCoherent : IsCoherent client.cache
unfolding new_client
new_cache-IsCoherent = record { counted = refl; none_yet = λ h. refl; etag_safe = inl refl }

refresh_once-IsCoherent_example :
    IsCoherent
      (refresh_once 5
        (λ etag. read_reply (λ body. some (flags, codes "1")) (answer etag))
        true
        client).0.cache
refresh_once-IsCoherent_example =
    refresh_once-IsCoherent 5 (λ body. some (flags, codes "1")) answer true client
      new_cache-IsCoherent

-- Four failures at an interval of 300: 2400, a fifth later.
backoff_of_four : backoff_delay 300 4800 (λ spread. later spread) 4 ≡ 2880
unfolding backoff_delay
backoff_of_four = refl

backoff_delay_bounds_example :
    let delay = target_delay 300 4800 4 in
    (delay - delay / 5 ≤ backoff_delay 300 4800 (λ spread. later spread) 4)
    × (backoff_delay 300 4800 (λ spread. later spread) 4 ≤ min 4800 (delay + delay / 5))
backoff_delay_bounds_example =
    backoff_delay_bounds 300 4800 (λ spread. later spread) 4 (omega arith)

abbrev flagged : Life
flagged = record new_life { shutdown = true }

abbrev wiped : Life
wiped = record flagged { cleared = true }

to_flagged : Reach new_life flagged
to_flagged = next here (flag new_life refl)

wipe_flagged : Step flagged wiped
unfolding to_toggle.Sdk.Cache.clear
wipe_flagged = wipe flagged refl refl

abbrev relocked : Life
relocked = record wiped { phase = to_toggle.Sdk.Client.Lifecycle.locked }

shutdown_is_final_example : relocked.cache ≡ new_cache
shutdown_is_final_example =
    shutdown_is_final wiped relocked (next to_flagged wipe_flagged) refl
      (next here (lock wiped refl))

shutdown_fails_closed_example :
    (is_active (reading wiped none (λ s. some s) noon) (codes "shop")).0 ≡ false
shutdown_fails_closed_example =
    shutdown_fails_closed flagged wiped none (λ s. some s) noon (codes "shop") refl
      (next here wipe_flagged)
