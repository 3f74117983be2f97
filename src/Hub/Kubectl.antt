-- ===== src/Hub/Kubectl.antt =====
-- components/idthw_hub/features/kubernetes/api/kubectl.ts: what becomes of the output of a `kubectl`
-- process. The process is a sequence of chunks of bytes that it prints, or a failure to run, and its
-- exit.
pub mod Output
use id_jag_the_hard_way.Base.{
  ℕ, zero, suc, ◌+◌, ◌≤◌, ◌≡◌, refl, sym, ap, ◌∙◌, subst, Bool, true, false, ◌||◌, ◌&&◌, Option,
  none, some, List, [], ◌∷◌, ◌++◌, map, if◌then◌else◌, ltb, leb, ◌==◌, nat_eq, inl, inr, Bool-cases,
  arith, is_some,
}
use id_jag_the_hard_way.Base.Text.{Text, lit, index_of}

abbrev pub max_command_output_bytes : ℕ
max_command_output_bytes = 32768

pub record Run : Type 0 where
  pub stdout : Text
  pub stderr : Text
  pub output_exceeded : Bool
  pub failure : Option Text

pub data Event : Type 0 where
  printed complained : (chunk : List ℕ) → Event
  failed : (error : Text) → Event

-- `settled` is the outcome of the promise.
pub data Outcome : Type 0 where
  resolved : (stdout stderr : Text) → Outcome
  rejected : (message stderr : Text) → Outcome
  errored : (error : Text) → Outcome

abbrev pub started : Run
started = record { stdout = []; stderr = []; output_exceeded = false; failure = none }

-- `byte_length` is `Buffer.byteLength`, in UTF-8, and `utf8` is `toString("utf8")` of a buffer, which
-- has a replacement character for what is no whole character.
module _ (byte_length : Text → ℕ) (utf8 : List ℕ → Text) where
  abbrev pub exceeds : Text → Bool
  exceeds next = ltb max_command_output_bytes (byte_length next)

  -- `appendOutput`: the new text, which is the old one where the limit is passed
  unfoldable pub append_output : (current : Text) → (chunk : List ℕ) → Text
  append_output current chunk =
      if exceeds (current ++ utf8 chunk) then current else current ++ utf8 chunk

  -- The first `error` settles the promise.
  unfoldable pub on_event : Run → Event → Run
  unfolding append_output
  on_event r (printed chunk) = record r {
    stdout = append_output r.stdout chunk;
    output_exceeded = exceeds (r.stdout ++ utf8 chunk) || r.output_exceeded;
  }
  on_event r (complained chunk) = record r {
    stderr = append_output r.stderr chunk;
    output_exceeded = exceeds (r.stderr ++ utf8 chunk) || r.output_exceeded;
  }
  on_event r (failed error) = record r {
    failure = elim r.failure [ none ↦ some error | some first ↦ some first ];
  }

  unfoldable pub on_events : Run → List Event → Run
  unfolding on_event
  on_events r [] = r
  on_events r (e ∷ es) = on_events (on_event r e) es

-- `` `kubectl exited with code ${code ?? "unknown"}${signal ? ` (${signal})` : ""}` ``
unfoldable pub exit_message : (code signal : Option Text) → Text
exit_message code signal =
    lit "kubectl exited with code " ++ (or_unknown code ++ in_brackets signal)
  where
    or_unknown : Option Text → Text
    or_unknown none = lit "unknown"
    or_unknown (some c) = c

    in_brackets : Option Text → Text
    in_brackets none = []
    in_brackets (some s) = lit " (" ++ (s ++ lit ")")

-- the listener of `close`, with the exit code in decimal
unfoldable pub on_close : Run → (code signal : Option Text) → Outcome
unfolding exit_message
on_close r code signal = settled r.failure (
    if r.output_exceeded
    then rejected (lit "kubectl output exceeded the limit") r.stderr
    else if is_zero code
    then resolved r.stdout r.stderr
    else rejected (exit_message code signal) r.stderr)
  where
    settled : Option Text → Outcome → Outcome
    settled none outcome = outcome
    settled (some error) outcome = errored error

    is_zero : Option Text → Bool
    is_zero none = false
    is_zero (some (c ∷ [])) = c == b'0'
    is_zero (some _) = false

abbrev pub lower : Text → Text
lower = map (λ c. if leb b'A' c && leb c b'Z' then c + 32 else c)

-- `/alreadyexists|already exists/i.test(stderr)`
unfoldable pub is_kubectl_already_exists : Text → Bool
unfolding index_of
is_kubectl_already_exists stderr =
    is_some (index_of (lower stderr) (lit "alreadyexists"))
    || is_some (index_of (lower stderr) (lit "already exists"))
