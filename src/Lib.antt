-- ===== src/Lib.antt =====
-- A model of Veil, a password manager for agents: an agent asks a broker to use a secret, and never
-- sees it. The library follows the Go code of the repository.
--
-- The parts and how they interact
--   internal/protocol/protocol.go declares the principals, items, grants, approvals, sessions, requests
--   and audit events. internal/store/memory.go keeps them. internal/grant/grant.go decides whether a
--   request is allowed, from a grant and an approval that the store hands out together.
--   internal/broker/broker.go is the only path that sees a secret: it asks the store, decides, writes
--   the audit row, reads the secret, adds it to a request by internal/material/material.go, sends the
--   request, and cuts the secrets from the answer by internal/scrub/scrub.go.
--   internal/app/app.go and session.go are the facade over these that the servers and commands call:
--   agents, items, grants, approvals, sessions and uses. internal/broker/env.go hands secrets to a child
--   process. internal/workload/workload.go finds the agent of an external identity token,
--   internal/audit/audit.go writes rows in the background, internal/id/id.go names things, and
--   internal/passgen/passgen.go makes passwords.
--
-- Which file models which part
--   Protocol: protocol.go. Each struct is a record and each string enumeration a data type; an action
--     that is none of the named ones is kept as its text.
--   Grant: Evaluate, actionAllowed, hostAllowed, ParseDest, CanonicalHost, HostAllowed and Registrable
--     of grant.go. Grant/Spec says without the order of the tests what may be used; Grant/Evaluation and
--     Grant/Clock are about Evaluate.
--   Store: the type Memory of memory.go. Store/Agents, Store/Items, Store/Grants, Store/Sessions and
--     Store/Sweep have one function per method (put_agent is PutAgent, use_auth is UseAuth, and so on).
--     Store/Steps lists the calls as a data type and runs a list of them. The theorems are in
--     Store/Revocation, Store/WellFormed, Store/Lookups, Store/SessionLaws, Store/SweepLaws,
--     Store/History, Store/Untouched and Store/Budget.
--   GoMap and Bytes: Go maps with comparable keys, and the functions of Go's bytes and strings packages
--     that the modelled code uses, on lists of bytes.
--   Material: Unpack, Mint, AuthorizationValue, Apply and ScrubList of material.go. Material/Pack has
--     WithLogin, FileBytes and the Pack functions, and Material/RoundTrip reads back what they write.
--   Id: id.go, the two patterns as functions on bytes; Id/Names is about them.
--   Scrub: Bytes and Contains of scrub.go; Scrub/Base64 has the four encodings, and Scrub/Hides what
--     the scrubber removes.
--   Broker: Use, UseSession, useAuthorized, auditUse and fetch of broker.go, and AccessToken of
--     material.go, as actions. Broker/Calls has the actions: a call takes the state behind the broker's
--     interfaces and the list of the calls made so far, and gives a result and a new world.
--     Broker/Calls/Invariants and Broker/Calls/Results have the rules for what actions keep and answer;
--     Broker/Release, Broker/Guarded, Broker/Outcomes, Broker/Answers, Broker/Covered,
--     Broker/Clean and Broker/Refusals use them. Broker/OnMemory fills the interfaces with the model of
--     memory.go, behind which the write of an audit row may fail.
--     Broker/Denied follows a call that is denied, and Broker/Moves a call on that store.
--     Broker/Redirects is the CheckRedirect of the client that broker.go builds.
--   App: ownsVault and MayWriteItem of app.go, with what the process is given. App/Vault has actions that
--     change the store or fail, App/Query those that only read it. App/Agents, App/Items, App/Grants,
--     App/Listing, App/Fill, App/Sessions, App/SignIn and App/Uses have one function per method
--     (revoke_own_agent is RevokeAgent, put_item_opts is PutItem, and so on), App/ChildEnv is env.go.
--     App/Service lists the operations that may change the store as requests and serves a list of
--     them. App/Runs, App/Gives, App/Spares and App/Audits have rules for what actions do; App/Refinement,
--     App/Revoked, App/Released, App/Strangers, App/Granting (with App/GrantChecks), App/EnvRows,
--     App/Visible, App/Filled and App/SessionLaws use them.
--   Audit: the type Async of audit.go as the moves of its goroutines. The callers of Append, the worker
--     of loop and Close take one step each; which of them is next, and which case of a select is taken,
--     is a list of moves. Audit/Order, Audit/Consistency, Audit/Bounds, Audit/Weight and Audit/Closing
--     are about such lists.
--   Workload: Agent, subject and unverifiedIssuer of workload.go, with the OIDC verifier as a parameter;
--     Workload/Bound says whom it lets in. App/Oidc is the sign-in of app.go that calls it.
--   Passgen: the classes of passgen.go; Passgen/Rules is parseRules, Passgen/Random the drawing and
--     FromRules, Passgen/Lengths the length of what it gives.
--   Prelude: what the modules share. Tests: the definitions and theorems at concrete inputs.
--
-- How the code corresponds to the model
--   A method that changes the store is a function from a Memory to a Memory, with a Result where the
--   method returns an error; the mutex makes each method one step, so an interleaving is a list of steps.
--   A Go map is a list of entries with one entry per key; where the code ranges over a map, whose order
--   Go leaves open, the model takes the order of the list. An int is a 64-bit word with wrap-around
--   (Prelude/Int64), a time.Time is a number of nanoseconds since Go's zero time, a nil pointer is none.
--   A sentinel error is a constructor of Error, and fmt.Errorf with %w is wrap. A use of an item
--   gives an Answer, which may have an error beside the result, as useAuthorized returns fetch_failed
--   beside the error of a fetch; a call that brings only an error is an err.
--   Every function is structurally recursive, so no bound or fuel is chosen anywhere.
--
-- What other code gives
--   Parameters stand for url.Parse, strings.ToLower on hosts and the public suffix list (UrlLibrary);
--   json.Unmarshal, the TOTP library and http.CanonicalHeaderKey (Codecs); json.Marshal, SHA-256 and
--   strings.ToUpper (Toolbox); the OAuth token endpoint and the HTTP client (refresh, accepts and send of
--   Environment) and whether an audit row can be written (append of Outside); the OIDC verifier and the decoding of a token's payload (Oidc); strconv.Atoi; the
--   membership service and the verifier of identity tokens (App); and the reads of crypto/rand, byte
--   strings or errors. The case of bytes is that of ASCII letters.
--
-- What is not modelled
--   Traces, spans and log lines, which nothing reads; the timeout of an audit write, which is one of
--   the errors that append_audit may give; the SQL stores; of internal/app the opening of a vault
--   and its files, passkeys and the second device; the servers, commands, front ends
--   and SDKs, which are glue around the calls above.
pub mod Prelude
pub mod GoMap
pub mod Bytes
pub mod Protocol
pub mod Grant
pub mod Store
pub mod Scrub
pub mod Material
pub mod Id
pub mod Workload
pub mod App
pub mod Broker
pub mod Audit
pub mod Passgen
mod Tests
