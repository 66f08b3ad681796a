-- ===== src/Sdk/Client/Lifecycle.antt =====
-- totoggle_go/client.go: Start, Shutdown and refreshOnce as they interleave. One step is what a
-- goroutine does between two points where another may run. `refreshMu` is held in every phase but
-- `idle`; evaluation runs at any time, on the state as it is.
use to_toggle.Prelude.{ℕ, ◌≡◌, refl, ◌⊎◌, Bool, true, false, Option, Text, arith}
use to_toggle.Sdk.Cache.{Stats, Cache, new_cache, clear}
use to_toggle.Sdk.Fetch.{Fetched}
use to_toggle.Sdk.Strategy.Registry.{World}
use to_toggle.Sdk.Client.Refresh.{apply_fetched}
use to_toggle.Sdk.Client.Evaluate.{Reading, Resolver, is_active}

-- How far a refresh has come: it holds the lock, it has asked the server, it has the answer, and
-- it has seen for the second time that there is no shutdown.
pub data Phase : Type 0 where
  idle locked : Phase
  fetching : Stats → Phase
  received applying : Stats → Fetched → Phase

pub record Life : Type 0 where
  pub started : Bool
  pub shutdown : Bool
  pub cleared : Bool  -- Shutdown has cleared the cache and returned
  pub phase : Phase
  pub cache : Cache

abbrev pub new_life : Life
new_life = record {
  started = false;
  shutdown = false;
  cleared = false;
  phase = idle;
  cache = new_cache;
}

pub data Step : Life → Life → Type 0 where
  -- Start, after its look at the flag; the flag may have been set since.
  launch : (s : Life) → Step s (record s { started = true })
  -- refreshOnce, called by Start, by Refresh or by the loop.
  lock : (s : Life) → s.phase ≡ idle → Step s (record s { phase = locked })
  refuse : (s : Life) → s.phase ≡ locked → s.shutdown ≡ true → Step s (record s { phase = idle })
  send :
      (s : Life)
      → s.phase ≡ locked
      → s.shutdown ≡ false
      → Step s (record s { phase = fetching s.cache.stats })
  receive :
      (s : Life) (before : Stats) (f : Fetched)
      → s.phase ≡ fetching before
      → Step s (record s { phase = received before f })
  discard :
      (s : Life) (before : Stats) (f : Fetched)
      → s.phase ≡ received before f
      → s.shutdown ≡ true
      → Step s (record s { phase = idle })
  accept :
      (s : Life) (before : Stats) (f : Fetched)
      → s.phase ≡ received before f
      → s.shutdown ≡ false
      → Step s (record s { phase = applying before f })
  apply :
      (s : Life) (before : Stats) (f : Fetched) (now : ℕ)
      → s.phase ≡ applying before f
      → Step s (record s { phase = idle; cache = (apply_fetched now before f s.cache).0 })
  -- Shutdown: the flag, and later the cache, under the refresh lock.
  flag : (s : Life) → s.shutdown ≡ false → Step s (record s { shutdown = true })
  wipe :
      (s : Life)
      → s.shutdown ≡ true
      → s.phase ≡ idle
      → Step s (record s { cleared = true; cache = clear s.cache })

pub data Reach (s : Life) : Life → Type 0 where
  here : Reach s s
  next : {t u : Life} → Reach s t → Step t u → Reach s u

-- A refresh that has not been let past the first look at the flag.
abbrev IsQuiet : Phase → Type 0
IsQuiet p = (p ≡ idle) ⊎ (p ≡ locked)

pub record IsFinal (s : Life) : Type 0 where
  pub down : s.cleared ≡ true → s.shutdown ≡ true
  pub quiet : s.cleared ≡ true → IsQuiet s.phase
  pub empty : s.cleared ≡ true → s.cache ≡ new_cache

pub Step-IsFinal : {s t : Life} → Step s t → IsFinal s → IsFinal t
unfolding clear
Step-IsFinal (launch s) h = ground arith
Step-IsFinal (lock s e) h = ground arith
Step-IsFinal (refuse s e d) h = ground arith
Step-IsFinal (send s e d) h = ground arith
Step-IsFinal (receive s before f e) h = ground arith
Step-IsFinal (discard s before f e d) h = ground arith
Step-IsFinal (accept s before f e d) h = ground arith
Step-IsFinal (apply s before f now e) h = ground arith
Step-IsFinal (flag s d) h = ground arith
Step-IsFinal (wipe s d e) h = ground arith

Reach-IsFinal : {s t : Life} → IsFinal s → Reach s t → IsFinal t
Reach-IsFinal h here = h
Reach-IsFinal h (next r st) = Step-IsFinal st (Reach-IsFinal h r)

Step-cleared : {s t : Life} → Step s t → s.cleared ≡ true → t.cleared ≡ true
Step-cleared (wipe s d e) h = refl
Step-cleared _ h = h

Reach-cleared : {s t : Life} → s.cleared ≡ true → Reach s t → t.cleared ≡ true
Reach-cleared h here = h
Reach-cleared h (next r st) = Step-cleared st (Reach-cleared h r)

-- What an evaluation reads in a state of the client.
abbrev pub reading : Life → Option Resolver → (Text → Option Text) → World → Reading
reading s resolver unmarshal world = record {
  started = s.started;
  shutdown = s.shutdown;
  cache = s.cache;
  resolver = resolver;
  unmarshal = unmarshal;
  world = world;
}

-- Once Shutdown has returned, no interleaving of calls and of refreshes still under way brings a
-- toggle back: the cache stays as it was when the client was made.
pub shutdown_is_final :
    (s t : Life) → Reach new_life s → s.cleared ≡ true → Reach s t → t.cache ≡ new_cache
shutdown_is_final s t r h q =
    (Reach-IsFinal (Reach-IsFinal (ground arith) r) q).empty (Reach-cleared h q)

Step-shutdown : {s t : Life} → Step s t → s.shutdown ≡ true → t.shutdown ≡ true
Step-shutdown (flag s d) h = refl
Step-shutdown _ h = h

Reach-shutdown : {s t : Life} → s.shutdown ≡ true → Reach s t → t.shutdown ≡ true
Reach-shutdown h here = h
Reach-shutdown h (next r st) = Step-shutdown st (Reach-shutdown h r)

-- From the moment that Shutdown sets its flag, every evaluation is false, whatever else runs.
pub shutdown_fails_closed :
    (s t : Life) (resolver : Option Resolver) (unmarshal : Text → Option Text) (world : World)
    (path : Text)
    → s.shutdown ≡ true
    → Reach s t
    → (is_active (reading t resolver unmarshal world) path).0 ≡ false
unfolding is_active
shutdown_fails_closed s t resolver unmarshal world path h q = ground (arith, Reach-shutdown h q)
