-- ===== src/GenaiProxy/Snapshot/Parsed.antt =====
-- What a snapshot that usage.ts reads is known to hold.
use id_jag_the_hard_way.Base.{
  ℕ, ◌≤◌, suc, true, false, Option, none, some, List, [], ◌∷◌, ◌≡◌, refl, sym, ap, subst, arith,
  ◌==◌, nat_eq, length, includes, NoDups, Bool-cases, inl, inr,
}
use id_jag_the_hard_way.Base.Text.{Text, text_eq, lit, unique, unique_from}
use id_jag_the_hard_way.Base.Text.Sorting.{unique-NoDups}
use id_jag_the_hard_way.Base.Options.{>>=-eq-some, guard-bind-eq-some}
use id_jag_the_hard_way.Base.Json.{Value, null, bool, num, str, arr, obj, Fields, property}
use id_jag_the_hard_way.GenaiProxy.Usage.{TokenUsage, ModelUsage, UserUsage, default_model}
use id_jag_the_hard_way.GenaiProxy.Usage.Totals.{
  by_requests, by_prompt, by_completion, by_total, IsBalanced,
}
use id_jag_the_hard_way.GenaiProxy.Snapshot.{
  Dates, required_string, count_at, is_distinct, parse_tokens, parse_models, model_names,
  parse_model_usage_list, or_value, required_usage_date, legacy_date, last_usage_of, models_of,
  parse_user_usage,
}

length-unique_from : (seen xs : List Text) → length (unique_from seen xs) ≤ length xs
unfolding unique_from
length-unique_from seen [] = omega arith
length-unique_from seen (x ∷ xs) =
    ground (arith, length-unique_from seen xs, length-unique_from (x ∷ seen) xs)

unique_from_same :
    (seen xs : List Text) → length (unique_from seen xs) ≡ length xs → unique_from seen xs ≡ xs
unfolding unique_from
unique_from_same seen [] h = refl
unique_from_same seen (x ∷ xs) h = elim (Bool-cases (includes seen x)) [
  | inl old ↦ absurd (too_short (rw old at h))
  | inr new ↦ rw new (ap (λ ys. x ∷ ys) (unique_from_same (x ∷ seen) xs (shorter (rw new at h))))
]
  where
    too_short : length (unique_from seen xs) ≡ suc (length xs) → ⊥
    too_short e = omega (arith, length-unique_from seen xs)

    shorter :
        suc (length (unique_from (x ∷ seen) xs)) ≡ suc (length xs)
        → length (unique_from (x ∷ seen) xs) ≡ length xs
    shorter e = omega arith

is_distinct-NoDups : (xs : List Text) → is_distinct xs ≡ true → NoDups xs
unfolding is_distinct unique
is_distinct-NoDups xs h = subst NoDups (unique_from_same [] xs (ground arith)) (unique-NoDups xs)

parse_model_usage_list-NoDups :
    (v : Option Value) {models : List ModelUsage}
    → parse_model_usage_list v ≡ some models
    → NoDups (model_names models)
unfolding parse_model_usage_list
parse_model_usage_list-NoDups (some (arr vs)) h =
    let (models, read, h1) = >>=-eq-some (parse_models vs) _ h in
    let (distinct, h2) = guard-bind-eq-some (is_distinct (model_names models)) _ h1 in
    subst (λ ms. NoDups (model_names ms)) (cc h2) (is_distinct-NoDups (model_names models) distinct)
parse_model_usage_list-NoDups none h = absurd (cc h)
parse_model_usage_list-NoDups (some null) h = absurd (cc h)
parse_model_usage_list-NoDups (some (bool b)) h = absurd (cc h)
parse_model_usage_list-NoDups (some (num n)) h = absurd (cc h)
parse_model_usage_list-NoDups (some (str s)) h = absurd (cc h)
parse_model_usage_list-NoDups (some (obj fs)) h = absurd (cc h)

some-injective : {A : Type 0} {a b : A} → ◌≡◌ {A = Option A} (some a) (some b) → a ≡ b
some-injective h = cc

-- The models of an entry are told apart by their names, and the counts of an entry from before
-- version 4 are those of its one model.
pub record IsParsed (version : ℕ) (u : UserUsage) : Type 0 where
  pub distinct : NoDups (model_names u.models)
  pub migrated : (version == 4) ≡ false → IsBalanced u

module _ (t : Dates) where
  models_of_migrated :
      (version : ℕ) (fs : Fields) (requests : ℕ) (tokens : TokenUsage) {models : List ModelUsage}
      → models_of t version fs requests tokens ≡ some models
      → (version == 4) ≡ false
      → models ≡ record { model = default_model; requests = requests; tokens = tokens } ∷ []
  models_of_migrated version fs requests tokens h older = cc (rw older at h)

  models_of-NoDups :
      (version : ℕ) (fs : Fields) (requests : ℕ) (tokens : TokenUsage) {models : List ModelUsage}
      → models_of t version fs requests tokens ≡ some models
      → NoDups (model_names models)
  models_of-NoDups version fs requests tokens h = elim (Bool-cases (version == 4)) [
    | inl current ↦ parse_model_usage_list-NoDups (property fs (lit "models")) (rw current at h)
    | inr older ↦
        subst (λ ms. NoDups (model_names ms))
          (sym (models_of_migrated version fs requests tokens h older)) (λ m. m, tt)
  ]

  one_model-IsBalanced :
      (u : UserUsage)
      → u.models ≡ record { model = default_model; requests = u.requests; tokens = u.tokens } ∷ []
      → IsBalanced u
  one_model-IsBalanced u e by_requests = rw e (omega arith)
  one_model-IsBalanced u e by_prompt = rw e (omega arith)
  one_model-IsBalanced u e by_completion = rw e (omega arith)
  one_model-IsBalanced u e by_total = rw e (omega arith)

  -- An entry of a snapshot that is read has no two entries for one model, and after a
  -- migration its counts are the sums over its models.
  pub parse_user_usage-IsParsed :
      (version : ℕ) (v : Value) (u : UserUsage)
      → parse_user_usage t version v ≡ some u
      → IsParsed version u
  unfolding parse_user_usage
  parse_user_usage-IsParsed version (obj fs) u h =
      let (date, r1, h1) =
        >>=-eq-some
          (required_usage_date t (or_value (property fs (lit "date")) (legacy_date t version))) _
          h in
      let (requests, r2, h2) = >>=-eq-some (count_at fs (lit "requests")) _ h1 in
      let (tokens, r3, h3) = >>=-eq-some (parse_tokens fs) _ h2 in
      let (last_usage, r4, h4) = >>=-eq-some (last_usage_of t version fs date) _ h3 in
      let (models, r5, h5) = >>=-eq-some (models_of t version fs requests tokens) _ h4 in
      let (subject, r6, h6) = >>=-eq-some (required_string (property fs (lit "subject"))) _ h5 in
      let (client_id, r7, h7) = >>=-eq-some (required_string (property fs (lit "clientId"))) _ h6 in
      let (scope, r8, h8) = >>=-eq-some (required_string (property fs (lit "scope"))) _ h7 in
      let user : UserUsage = record {
        client_id = client_id;
        date = date;
        last_usage = last_usage;
        models = models;
        requests = requests;
        scope = scope;
        subject = subject;
        tokens = tokens;
      } in
      subst (IsParsed version) (some-injective h8) (record {
        distinct = models_of-NoDups version fs requests tokens r5;
        migrated = λ older.
            one_model-IsBalanced user (models_of_migrated version fs requests tokens r5 older);
      })
  parse_user_usage-IsParsed version null u h = absurd (cc h)
  parse_user_usage-IsParsed version (bool b) u h = absurd (cc h)
  parse_user_usage-IsParsed version (num n) u h = absurd (cc h)
  parse_user_usage-IsParsed version (str s) u h = absurd (cc h)
  parse_user_usage-IsParsed version (arr vs) u h = absurd (cc h)
