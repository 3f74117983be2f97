-- ===== src/Gateway/Athenz/Caches.antt =====
-- The token caches of one session (athenz.ts): entries, their status, and the two searches, which
-- delete what has expired on their way.
pub mod Status
pub mod Search
use id_jag_the_hard_way.Base.{
  ℕ, ◌+◌, Bool, true, false, not, ◌&&◌, Option, none, some, List, [], ◌∷◌, map, leb, ltb,
  if◌then◌else◌, length, includes,
}
use id_jag_the_hard_way.Base.Text.{Text, text_eq, join}
use id_jag_the_hard_way.Base.Text.Words.{blank}
use id_jag_the_hard_way.Base.Dict.{Dict, values}
use id_jag_the_hard_way.Gateway.Athenz.Scopes.{
  scopes_cover, scopes_exactly_match, audiences_exactly_match,
}
use id_jag_the_hard_way.Gateway.Athenz.Grants.{token_expiry_skew_ms}

-- `CachedAccessToken` and `CachedIdJag`
pub record CachedToken : Type 0 where
  pub token : Text
  pub audiences : List Text
  pub cached_at_ms : ℕ
  pub expires_at_ms : ℕ
  pub scopes : List Text

-- Within a minute of its expiry an entry is not used any more.
abbrev pub is_stale : ℕ → CachedToken → Bool
is_stale now entry = leb entry.expires_at_ms (now + token_expiry_skew_ms)

pub data EntryStatus : Type 0 where
  valid refresh_required expired : EntryStatus

unfoldable pub status_at : ℕ → CachedToken → EntryStatus
status_at now entry =
    if leb entry.expires_at_ms now
    then expired
    else if is_stale now entry
    then refresh_required
    else valid

pub record EntryReport : Type 0 where
  pub audiences : List Text
  pub scope : Text
  pub cached_at_ms : ℕ
  pub expires_at_ms : ℕ
  pub status : EntryStatus

pub record CacheStatus : Type 0 where
  pub entry_count : ℕ
  pub usable_entry_count : ℕ
  pub refresh_required_entry_count : ℕ
  pub expired_entry_count : ℕ
  pub expiry_skew_seconds : ℕ
  pub entries : List EntryReport

abbrev pub report_of : ℕ → CachedToken → EntryReport
report_of now entry = record {
  audiences = entry.audiences;
  scope = join blank entry.scopes;
  cached_at_ms = entry.cached_at_ms;
  expires_at_ms = entry.expires_at_ms;
  status = status_at now entry;
}

-- The counters as the source keeps them, one `if` for each entry.
pub record Counts : Type 0 where
  pub usable : ℕ
  pub refresh : ℕ
  pub gone : ℕ

abbrev pub count_one : EntryStatus → Counts → Counts
count_one valid c = record c { usable = c.usable + 1 }
count_one refresh_required c = record c { refresh = c.refresh + 1 }
count_one expired c = record c { gone = c.gone + 1 }

unfoldable pub count_from : ℕ → Counts → List CachedToken → Counts
unfolding status_at
count_from now c [] = c
count_from now c (entry ∷ entries) = count_from now (count_one (status_at now entry) c) entries

-- `getCacheStatus` and `getIdJagCacheStatus`
unfoldable pub cache_status : ℕ → Dict CachedToken → CacheStatus
unfolding count_from
cache_status now cache =
    let counts = count_from now (record { usable = 0; refresh = 0; gone = 0 }) (values cache) in
    let entries = map (report_of now) (values cache) in
    record {
      entry_count = length entries;
      usable_entry_count = counts.usable;
      refresh_required_entry_count = counts.refresh;
      expired_entry_count = counts.gone;
      expiry_skew_seconds = 60;
      entries = entries;
    }

abbrev pub serves : List Text → Text → CachedToken → Bool
serves requested audience entry =
    audiences_exactly_match entry.audiences (audience ∷ [])
    && scopes_exactly_match entry.scopes requested

abbrev pub prepend {ℓ} :
    {A : Type ℓ} → Text × CachedToken → Dict CachedToken × A → Dict CachedToken × A
prepend e (cache, found) = (e ∷ cache, found)

-- The search ends at the first entry that serves; what stands behind it stays.
unfoldable pub find_access_token :
    (now : ℕ) (requested : List Text) (audience : Text)
    → Dict CachedToken
    → Dict CachedToken × Option CachedToken
find_access_token now requested audience [] = ([], none)
find_access_token now requested audience ((key, entry) ∷ cache) =
    let later = find_access_token now requested audience cache in
    if is_stale now entry
    then later
    else if serves requested audience entry
    then ((key, entry) ∷ cache, some entry)
    else prepend (key, entry) later

abbrev pub covers_request : Text → List Text → CachedToken → Bool
covers_request zts_audience requested entry =
    includes entry.audiences zts_audience && scopes_cover entry.scopes requested

unfoldable pub live_id_jags : (now : ℕ) → Dict CachedToken → Dict CachedToken
live_id_jags now [] = []
live_id_jags now ((key, entry) ∷ cache) =
    let later = live_id_jags now cache in if is_stale now entry then later else (key, entry) ∷ later

unfoldable pub id_jag_matches : Text → List Text → Dict CachedToken → List CachedToken
id_jag_matches zts_audience requested [] = []
id_jag_matches zts_audience requested ((key, entry) ∷ cache) =
    let later = id_jag_matches zts_audience requested cache in
    if covers_request zts_audience requested entry then entry ∷ later else later

-- `sort` by the number of scopes, which is stable, and its first element.
unfoldable pub narrowest : List CachedToken → Option CachedToken
narrowest [] = none
narrowest (entry ∷ entries) = elim (narrowest entries) [
  | none ↦ some entry
  | some best ↦ if leb (length entry.scopes) (length best.scopes) then some entry else some best
]

unfoldable pub find_id_jag :
    (zts_audience : Text) (now : ℕ) (requested : List Text)
    → Dict CachedToken
    → Dict CachedToken × Option CachedToken
unfolding live_id_jags id_jag_matches narrowest
find_id_jag zts_audience now requested cache =
    let live = live_id_jags now cache in
    (live, narrowest (id_jag_matches zts_audience requested live))
