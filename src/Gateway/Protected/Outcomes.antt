-- ===== src/Gateway/Protected/Outcomes.antt =====
-- The end of a session over its requests, the scopes for the MCP server's own use, and the public
-- methods (routes/protected.ts).
use id_jag_the_hard_way.Base.{
  ℕ, Bool, true, false, not, Option, none, some, List, [], ◌∷◌, ◌≡◌, refl, sym, subst, err, arith,
  Member, includes_iff, includes, keep_if, ◌↔◌,
}
use id_jag_the_hard_way.Base.Text.{Text, text_eq, text_beq, text_beq_iff, lit}
use id_jag_the_hard_way.Base.Text.{words}
use id_jag_the_hard_way.Base.Text.Sorting.{Member-sort, Member-unique}
use id_jag_the_hard_way.Base.Json.{Value, null, bool, num, str, arr, obj}
use id_jag_the_hard_way.Base.Options.{truthy}
use id_jag_the_hard_way.Gateway.Platform.{Platform}
use id_jag_the_hard_way.Gateway.Sessions
use id_jag_the_hard_way.Gateway.Sessions.{GatewaySession, SessionStore}
use id_jag_the_hard_way.Gateway.Sessions.Laws.{get_after_removal}
use id_jag_the_hard_way.Gateway.Protected.Scopes.{
  McpRequest, message, method_of, is_method, is_public_method, is_public_mcp_discovery_request,
  downstream_scopes, scope_values,
}
use id_jag_the_hard_way.Gateway.Athenz.Errors.{reauthentication_required}
use id_jag_the_hard_way.Gateway.Protected.Forwarding.{
  athenz, Services, challenge, bearer_token, session_with, require_session, proxy, settle,
  handle_session, handle_valid, handle, signed_out, is_reauthentication, is_valid_server_id,
}

Member-keep_if :
    (p : Text → Bool) (xs : List Text) (a : Text)
    → Member a (keep_if p xs) ↔ (Member a xs × (p a ≡ true))
Member-keep_if p [] a = (λ m. absurd m, λ m. m.0)
Member-keep_if p (x ∷ xs) a = ground (arith, Member-keep_if p xs a)

Member-scope_values : (scope a : Text) → Member a (scope_values scope) ↔ Member a (words scope)
unfolding scope_values
Member-scope_values scope a = (
  λ m. (Member-unique a (words scope)).0 ((Member-sort a _).0 m),
  λ m. (Member-sort a _).1 ((Member-unique a (words scope)).1 m),
)

-- The MCP server is told just those of the selected scopes that the route does not need itself.
pub downstream_scopes_iff :
    (selected route_scope a : Text)
    → Member a (downstream_scopes selected route_scope)
      ↔ (Member a (words selected) × ¬ Member a (words route_scope))
unfolding downstream_scopes
downstream_scopes_iff selected route_scope a = ground (
  arith,
  Member-keep_if (λ scope. not (includes (scope_values route_scope) scope)) (scope_values selected)
      a,
  includes_iff (scope_values route_scope) a,
  Member-scope_values selected a,
  Member-scope_values route_scope a,
)

-- A tool call is never public.
pub tools_call-ne-public :
    (r : McpRequest)
    → is_method (lit "tools/call") (method_of (message r)) ≡ true
    → is_public_mcp_discovery_request r ≡ false
unfolding is_public_mcp_discovery_request text_beq
tools_call-ne-public r h = of_value (method_of (message r)) h
  where
    of_value :
        (v : Option Value) → is_method (lit "tools/call") v ≡ true → is_public_method v ≡ false
    of_value none h = refl
    of_value (some null) h = refl
    of_value (some (bool b)) h = refl
    of_value (some (num n)) h = refl
    of_value (some (arr vs)) h = refl
    of_value (some (obj fs)) h = refl
    of_value (some (str s)) h =
        subst (λ t. is_public_method (some (str t)) ≡ false)
          (sym ((text_beq_iff s (lit "tools/call")).0 h)) refl

module _ (p : Platform) (svc : Services) (fallback : Text) where
  signed_out-none :
      (ms later : ℕ) (r : McpRequest) (token : Text) (s s' : SessionStore)
      {session : GatewaySession}
      → bearer_token r ≡ token
      → (session_with p ms (truthy (some token)) s).1 ≡ some session
      → (Sessions.get p later token (signed_out p svc fallback r s')).1 ≡ none
  signed_out-none ms later r [] s s' e h = absurd (cc h)
  signed_out-none ms later r (c ∷ t) s s' e h =
      subst
        (λ token.
          (Sessions.get p later (c ∷ t)
            (elim (truthy (some token)) [ none ↦ s' | some k ↦ (Sessions.delete p k s').0 ])).1
          ≡ none)
        (sym e) (get_after_removal p ms later (c ∷ t) s').0

  -- Athenz's refusal of the identity token ends the session: the bearer token of the request
  -- finds no session from then on, and the caller is challenged to log in again.
  pub handle_reauthentication :
      (ms later : ℕ) (server_id : Text) (r : McpRequest) (s : SessionStore)
      (session : GatewaySession)
      → is_valid_server_id server_id ≡ true
      → (require_session p ms r s).1 ≡ some session
      → proxy p svc fallback session server_id r ≡ err (athenz reauthentication_required)
      → ((Sessions.get p later (bearer_token r) (handle p svc fallback ms server_id r s).0).1
          ≡ none)
        × ((handle p svc fallback ms server_id r s).1
            ≡ challenge (lit "reauth_required") (some server_id))
  unfolding handle handle_valid handle_session settle require_session is_reauthentication
  handle_reauthentication ms later server_id r s session valid found spent =
      let s' : SessionStore = (require_session p ms r s).0 in
      rw (valid, found, spent) (signed_out-none ms later r (bearer_token r) s s' refl found, refl)
