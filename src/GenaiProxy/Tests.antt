-- ===== src/GenaiProxy/Tests.antt =====
-- The theorems on genai_proxy at one token and one day.
use id_jag_the_hard_way.Base.{
  true, none, some, ◌≡◌, refl, List, [], ◌∷◌, Option, if◌then◌else◌, ◌==◌,
}
use id_jag_the_hard_way.Base.Text.{Text, lit, text_eq}
use id_jag_the_hard_way.Base.Dict.{get, values}
use id_jag_the_hard_way.Base.Json.{str, num, nat, Fields, end, field}
use id_jag_the_hard_way.GenaiProxy.Auth.{AuthContext, TokenVerifierOptions}
use id_jag_the_hard_way.GenaiProxy.Snapshot.{Dates}
use id_jag_the_hard_way.GenaiProxy.Usage.{
  default_model, TokenUsage, ModelUsage, UserUsage, UsageIdentity, Projects, record_usage,
  current_daily_models, or_new,
}
use id_jag_the_hard_way.GenaiProxy.Usage.Totals.{
  by_total, by_requests, by_prompt, by_completion, models_count, AreBalanced, IsBalanced,
  record_usage-AreBalanced,
}
use id_jag_the_hard_way.GenaiProxy.Usage.Daily.{day_count, current_daily_models_count}

abbrev header : Fields
header = field (lit "alg") (str (lit "RS256")) (field (lit "typ") (str (lit "at+jwt")) end)

abbrev claims : Fields
claims = field (lit "aud") (str (lit "g.p")) (
    field (lit "exp") (num (nat 900)) (
      field (lit "sub") (str (lit "user.u"))
        (field (lit "client_id") (str (lit "c")) (field (lit "scope") (str (lit "s")) end))))

-- The header is `h`; any other segment is the payload, and every signature is good.
abbrev decode : Text → Option Fields
decode segment = if segment == lit "h" then some header else some claims

abbrev options : TokenVerifierOptions
options = record {
  audience_prefix = lit "g.";
  required_scope = lit "s";
  decode = decode;
  verify = λ signed signature. true;
}

abbrev context : AuthContext
context = record {
  audience = lit "g.p";
  client_id = lit "c";
  project = lit "p";
  scope = lit "g.p:role.s";
  subject = lit "user.u";
}

abbrev usage : TokenUsage
usage = record { prompt_tokens = 10; completion_tokens = 5; total_tokens = 15 }

abbrev identity : UsageIdentity
identity = record {
  client_id = lit "c";
  model = none;
  project = lit "p";
  scope = lit "s";
  subject = lit "u";
}

record_usage-AreBalanced_example : AreBalanced (record_usage (lit "d") (lit "t") identity usage [])
record_usage-AreBalanced_example = record_usage-AreBalanced (lit "d") (lit "t") identity usage [] tt

abbrev model : ModelUsage
model = record { model = lit "gpt-5.6-sol"; requests = 1; tokens = usage }

abbrev user : UserUsage
user = record {
  client_id = lit "c";
  date = lit "d";
  last_usage = lit "t";
  models = model ∷ [];
  requests = 1;
  scope = lit "s";
  subject = lit "u";
  tokens = usage;
}

user-IsBalanced : IsBalanced user
user-IsBalanced by_requests = refl
user-IsBalanced by_prompt = refl
user-IsBalanced by_completion = refl
user-IsBalanced by_total = refl

abbrev projects : Projects
projects = (lit "p", (lit "k", user) ∷ []) ∷ []

current_daily_models_count_example :
    models_count by_total (current_daily_models (lit "d") (lit "p") projects)
    ≡ day_count by_total (lit "d") (values (or_new (get projects (lit "p")) []))
current_daily_models_count_example =
    current_daily_models_count by_total (lit "d") (lit "p") projects ((user-IsBalanced, tt), tt)

-- 1000 prompt tokens are over the limit of this project.
abbrev spent : List ModelUsage
spent =
    record model {
      tokens = record { prompt_tokens = 1000; completion_tokens = 0; total_tokens = 1000 };
    }
    ∷ []

abbrev dates : Dates
dates = record {
  modified_day = lit "d";
  modified_stamp = lit "dT";
  is_day = λ s. true;
  stamp_day = λ s. none;
}

-- An entry of the first version.
abbrev old_entry : Fields
old_entry = field (lit "requests") (num (nat 1)) (
    field (lit "promptTokens") (num (nat 10)) (
      field (lit "completionTokens") (num (nat 5)) (
        field (lit "totalTokens") (num (nat 15)) (
          field (lit "subject") (str (lit "u"))
            (field (lit "clientId") (str (lit "c")) (field (lit "scope") (str (lit "s")) end))))))

abbrev old_user : UserUsage
old_user = record user {
  last_usage = lit "dT";
  models = record { model = default_model; requests = 1; tokens = usage } ∷ [];
}
