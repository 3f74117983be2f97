-- ===== src/Gateway/Athenz/Caches/Status.antt =====
-- The counts in the cache reports of athenz.ts.
use id_jag_the_hard_way.Base.{ℕ, ◌+◌, List, [], ◌∷◌, ◌≡◌, map, length, keep_if, not, arith}
use id_jag_the_hard_way.Base.Dict.{Dict, values}
use id_jag_the_hard_way.Gateway.Athenz.Caches.{
  CachedToken, EntryStatus, valid, refresh_required, expired, status_at, Counts, count_from,
  cache_status, report_of, count_one, is_stale,
}

abbrev total : Counts → ℕ
total c = c.usable + c.refresh + c.gone

count_one-total : (s : EntryStatus) (c : Counts) → total (count_one s c) ≡ total c + 1
count_one-total valid c = omega arith
count_one-total refresh_required c = omega arith
count_one-total expired c = omega arith

count_from-total :
    (now : ℕ) (c : Counts) (entries : List CachedToken)
    → total (count_from now c entries) ≡ total c + length (map (report_of now) entries)
unfolding count_from
count_from-total now c [] = omega arith
count_from-total now c (e ∷ es) = omega (
  arith,
  count_from-total now (count_one (status_at now e) c) es,
  count_one-total (status_at now e) c,
)

-- The entries that a search would still use.
abbrev pub usable_entries : ℕ → List CachedToken → List CachedToken
usable_entries now = keep_if (λ e. not (is_stale now e))

count_from-usable :
    (now : ℕ) (c : Counts) (entries : List CachedToken)
    → (count_from now c entries).usable ≡ c.usable + length (usable_entries now entries)
unfolding count_from
count_from-usable now c [] = omega arith
count_from-usable now c (e ∷ es) =
    ground (arith, count_from-usable now (count_one (status_at now e) c) es)

-- A report accounts for every entry once, and counts as usable exactly the entries that a search
-- at that time would still use.
pub cache_status_lem :
    (now : ℕ) (cache : Dict CachedToken)
    → ((cache_status now cache).usable_entry_count
          + (cache_status now cache).refresh_required_entry_count
          + (cache_status now cache).expired_entry_count
        ≡ (cache_status now cache).entry_count)
      × ((cache_status now cache).usable_entry_count ≡ length (usable_entries now (values cache)))
unfolding cache_status
cache_status_lem now cache = (
  omega (arith, count_from-total now (record { usable = 0; refresh = 0; gone = 0 }) (values cache)),
  omega
      (arith, count_from-usable now (record { usable = 0; refresh = 0; gone = 0 }) (values cache)),
)
