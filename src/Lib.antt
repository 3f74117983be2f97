-- ===== src/Lib.antt =====
-- Verification of id-jag-the-hard-way: the MCP gateway, the hub's workflow and the
-- GenAI proxy.
--
-- The repository shows how an identity assertion (an ID-JAG) authorizes calls to MCP servers
-- through Athenz. Its core program is components/mcp-gateway, an OAuth server and reverse proxy:
-- an MCP client registers and logs in through Keycloak (routes/oauth.ts), gets a gateway session
-- (utils/sessionStore.ts), and sends its MCP requests to /mcp/:serverId (routes/protected.ts),
-- which finds the server's route in the hub's registry (services/mcpRegistry.ts), exchanges the
-- session's identity token for an Athenz access token (services/athenz.ts) and forwards the
-- request. A second program, components/genai_proxy, lets holders of an Athenz access token call
-- language models, counts what they use and limits what a day may cost. A third, the hub
-- (components/idthw_hub), publishes the servers and lets users apply for access and approve it. Paths below are under
-- components/mcp-gateway/src, under components/genai_proxy/src for GenaiProxy, or as given for Hub.
--
-- Base holds what the files share: tests and options, results for code that throws, JavaScript's
-- strings as lists of UTF-16 code units (Base.Text, with split, trim, sort and unique), Map as an
-- association list in insertion order (Base.Dict), and parsed JSON (Base.Json).
--
-- Gateway.Platform: what is taken from Node (hash, bytes, URL) and from config/env.ts.
-- Gateway.OauthStore: utils/oauthStore.ts, its four tables as one record, one function for each
--   function of the file.
-- Gateway.Sessions: utils/sessionStore.ts, the methods of SessionStore.
-- Gateway.Keycloak: services/keycloak.ts, what becomes of Keycloak's answers.
-- Gateway.Oauth: routes/oauth.ts. Request has the state and the replies; Login the handlers up to
--   the authorization code; Grant those of the code and the session; System all of them as a step
--   relation. The callback is split at its await: callback runs to the exchange with Keycloak, and
--   finish_callback when it has answered, with any other step between them.
-- Gateway.Athenz: services/athenz.ts. Scopes, Errors, Grants and Caches follow its functions;
--   Manager is AthenzAccessTokenManager for one session, split at its awaits: get_access_token runs
--   to the first post, and answer_arrives is one answer of Athenz.
-- Gateway.Registry: services/mcpRegistry.ts, the parser and the cache of routes.
-- Gateway.Protected: routes/protected.ts. Scopes has the scope of a request, Headers what is passed
--   on, Forwarding the handlers.
-- Gateway.Internal: routes/internal.ts.
-- Hub: components/idthw_hub/features, the workflow by which users apply for access.
-- Hub.Input: workflow/lib/workflowApplication.ts, the checks by which unknown input is read.
-- Hub.Workflow: the types of workflow/types.ts and the reading and printing of applications; Answers
--   the answers to a form template; Store the configuration maps and the operations of
--   workflow/api/workflowApplications.ts; Reach the requests on them as a step relation, which may act on what they read at another time.
-- Hub.Template: form templates, workflow/lib/workflowFormTemplate.ts and
--   workflow/api/workflowFormTemplates.ts; an update is split at the await between its read
--   (prepare_update) and its patch (write_update).
-- Hub.Permissions: features/permissions/lib/permissionPreset.ts of the hub, the scopes that are
--   published for tools (read back by Gateway.Athenz.Scopes); Resolving, Preset and Managed the role
--   memberships that the settings and a managed route need. Constant fields are left out, and the
--   order of keys is that of the settings.
-- Hub.Kubectl: kubernetes/api/kubectl.ts, the output of a process; decoding a chunk is a parameter.
-- Hub.Cluster: the Kubernetes API behind kubectl, as a record of operations and laws. Hub.Tests has a
--   list of maps that satisfies them.
-- GenaiProxy.Auth: auth.ts, the verifier of access tokens.
-- GenaiProxy.Usage: usage.ts, the counts by project, user and model.
-- GenaiProxy.Snapshot: usage.ts, the reading of a stored snapshot.
-- GenaiProxy.Billing: billing.ts, and the daily limit of server.ts. Money is in units of 10^-7 USD,
--   in which every price and limit is whole, where the source adds floating-point numbers; a price
--   that is looked up under a name that every JavaScript object has is none, which stands for NaN.
-- Gateway.Tests, Hub.Tests and GenaiProxy.Tests: a small login, server and grant, at which the theorems are
--   applied.
--
-- Time is an argument of every operation that reads the clock, in milliseconds, and where a handler
-- reads it several times there are as many arguments; get_access_token has one for all its reads.
-- The forwarding handler is one step over its awaits. Random tokens are arguments as well. Numbers
-- are exact: the source's are JavaScript numbers far below 2^53. Recursion is on lists and on
-- parsed JSON throughout; the one fuel, that of the decimal digits of n, is n + 1, above their number.
--
-- Not modelled: HTTP, TLS and JWT signatures, whose outcomes are arguments; the texts of error
-- messages; static metadata; the listings of usage and their reports; fractions finer than a
-- millisecond in a token's claims; the parser of stored permission settings and the exchange
-- policies that are expected of them; the pages of the hub; and the other
-- components of the repository.
pub mod Base
pub mod Gateway
pub mod Hub
pub mod GenaiProxy
