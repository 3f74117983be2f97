-- ===== src/GenaiProxy/Usage/Daily.antt =====
-- What the models of a day add up to (usage.ts).
use id_jag_the_hard_way.Base.{
  ℕ, ◌+◌, List, [], ◌∷◌, ◌≡◌, arith, if◌then◌else◌, ◌==◌, Bool-cases, inl, inr,
}
use id_jag_the_hard_way.Base.Text.{Text, text_eq}
use id_jag_the_hard_way.Base.Dict.{Dict, get, set, values, Entries}
use id_jag_the_hard_way.GenaiProxy.Usage.{
  TokenUsage, ModelUsage, UserUsage, Projects, more, new_model, or_new, add_models, add_users,
  current_daily_models,
}
use id_jag_the_hard_way.GenaiProxy.Usage.Totals.{
  Measure, tokens_by, user_count, models_count, IsBalanced, AreBalanced, more_count, new_count,
  or_new-Entries,
}

-- What the users of one day used, by their own totals.
abbrev pub day_count : Measure → (date : Text) → List UserUsage → ℕ
day_count q date [] = 0
day_count q date (u ∷ us) =
    if u.date == date then user_count q u + day_count q date us else day_count q date us

set_count :
    (q : Measure) (requests : ℕ) (usage : TokenUsage) (k : Text) (d : Dict ModelUsage)
    → models_count q (values (set d k (more requests usage (or_new (get d k) (new_model k)))))
      ≡ tokens_by q requests usage + models_count q (values d)
unfolding get set
set_count q requests usage k [] =
    omega (arith, more_count q requests usage (new_model k), new_count q k)
set_count q requests usage k ((j, m) ∷ d) = elim (Bool-cases (j == k)) [
  | inl same ↦ rw same (omega (arith, more_count q requests usage m))
  | inr other ↦ rw other (omega (arith, set_count q requests usage k d))
]

add_models_count :
    (q : Measure) (ms : List ModelUsage) (totals : Dict ModelUsage)
    → models_count q (values (add_models ms totals))
      ≡ models_count q ms + models_count q (values totals)
unfolding add_models
add_models_count q [] totals = omega arith
add_models_count q (m ∷ ms) totals =
    let next =
      set totals m.model
        (more m.requests m.tokens (or_new (get totals m.model) (new_model m.model))) in
    omega (arith, add_models_count q ms next, set_count q m.requests m.tokens m.model totals)

add_users_count :
    (q : Measure) (date : Text) (us : Dict UserUsage) (totals : Dict ModelUsage)
    → Entries (λ key u. IsBalanced u) us
    → models_count q (values (add_users date (values us) totals))
      ≡ day_count q date (values us) + models_count q (values totals)
unfolding add_users
add_users_count q date [] totals h = omega arith
add_users_count q date ((key, u) ∷ us) totals h = elim (Bool-cases (u.date == date)) [
  | inr other ↦ rw other (add_users_count q date us totals h.1)
  | inl today ↦ rw today (
      omega (
        arith,
        add_users_count q date us (add_models u.models totals) h.1,
        add_models_count q u.models totals,
        h.0 q,
      ))
]

-- In a balanced store, the totals by model, from which the spending of a day is computed,
-- account for exactly what the users of that day used: no request and no token is lost or
-- counted twice.
pub current_daily_models_count :
    (q : Measure) (date project : Text) (projects : Projects)
    → AreBalanced projects
    → models_count q (current_daily_models date project projects)
      ≡ day_count q date (values (or_new (get projects project) []))
unfolding current_daily_models
current_daily_models_count q date project projects h =
    let users : Dict UserUsage = or_new (get projects project) [] in
    omega (arith, add_users_count q date users [] (or_new-Entries projects project h))
