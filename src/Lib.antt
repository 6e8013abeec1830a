-- ===== src/Lib.antt =====
-- The Lucairn dashboard (apps/dashboard): a Go web server that lets an operator sign in, read the
-- audit log, inspect and re-verify certificates, and manage API keys. The parts modelled here are
-- the configuration, signing in, the sessions behind it and the gate on every request, the list and
-- the verification of certificates and what the inspector says of one, the jobs that verify many
-- again, the reveal and export of raw audit data, the API keys and the gateway's client behind them,
-- the services' health and the figures of the home page.
--
-- How the parts interact. A request passes the gate (auth/middleware.go), which looks the session
-- of its cookie up in the session store (auth/session.go), and then a handler. The handlers of
-- handlers/handlers.go and handlers/oidc.go create and delete sessions; the OIDC ones also create
-- and consume flow records (auth/oidc_state.go) and exchange the code of a callback for a user
-- (auth/oidc.go). The inspector shows a VerifyResult of the witness client, in which the narrative
-- of l3_coverage_narrative.go puts the coverage records of the certificate into words. A bulk job
-- (handlers/bulk_reverify.go) verifies up to 100 certificates in concurrent workers and counts
-- their verdicts. The audit handlers (handlers/audit.go) hand raw data out only behind an entry
-- in the audit trail. The certificate handlers (handlers/certs.go) read the store (store/certs.go)
-- and drop an entry of the witness client's cache when a certificate shall be verified again. The
-- key handlers (handlers/keys.go) call the gateway (gateway/admin_client.go), cache its customers
-- and write what they did into the audit trail.
--
-- Which file models which part (paths below apps/dashboard/internal):
--   Auth            Role and User of auth/local.go
--   Auth/Session    auth/session.go: MemorySessionStore.Create is `create`, Get `get`,
--                   GetAndTouch `get_and_touch`, Touch `touch`, Delete `delete`, collect `collect`
--   Auth/OidcState  auth/oidc_state.go: Create `create`, Consume `consume`, collect `collect`
--   Auth/Csrf       auth/csrf.go: IssueToken, VerifyToken
--   Auth/Gate       auth/middleware.go: LoadSession, RequireSession, RequireRole
--   Auth/Local      auth/local.go: NewLocalAuthenticator, Authenticate
--   Auth/Oidc       auth/oidc.go: Exchange, MapGroupsToRole, normalizeGroupsClaim
--   Web             what the handlers read of a request and write to a response
--   Handlers/Login  handlers/handlers.go, handlers/oidc.go: LoginGet, LoginPost, LogoutPost,
--                   LoginRedirect, Callback
--   Witness/L3      witness/l3_coverage_narrative.go: Words has the tables of phrases, Tally the
--                   sums over the fields, Lines the scope line and the ledgers, Narrative the
--                   evidence line, the composed line and BuildL3CoverageNarrative
--   Witness/Client  witness/verify_client.go: Verify is `verify`, Invalidate `invalidate`;
--                   Report has mapVerifyResult, Trace the step of one cache entry,
--                   Fetched and Freshness where an answer comes from
--   Handlers/Bulk   handlers/bulk_reverify.go: BulkReverifyHandler, normalizeCertIDs, runJob
--   Handlers/Audit  handlers/audit.go: RevealRawHandler, CSVExportHandler, populatePagination,
--                   pageWindow; Query has parseFilterFromQuery, populateRedactedRows and
--                   DetailHandler (`show_detail`)
--   Handlers/Certs  handlers/certs.go: InspectorHandler is `inspect`, ValidatorHandler `validate`,
--                   ReverifyHandler `reverify`; Filter has parseCertFilter and buildFilterQuery,
--                   Browser has BrowserHandler (`browse`) and CSVExportHandler
--   Handlers/Keys   handlers/keys.go: BrowserHandler is `browser`, getCustomers `get_customers`;
--                   Mint has MintHandler, Revoke has RevokeHandler and BulkRevokeHandler, Escape
--                   has escapeQueryValue
--   Gateway         gateway/admin_client.go: Client has NewAdminClient, the calls and `do`
--                   (`do_request`), Redact has redactSensitive
--   Config          config/config.go: Load is Config/Apply `load`, with one function for each of
--                   the apply functions
--   Health          health/services.go: ParseServicesSpec; health/poller.go: a tick of serviceLoop is
--                   `probe_and_store`, Snapshots is `snapshots`
--   Metrics         dashboard/metrics.go: aggregateCerts, aggregateAudit, recentActivity, the count
--                   of the keys; Metrics/Compute has Compute over the stores, the poller and the
--                   gateway
--   Store/CertQuery   store/certs.go: List, the query of Stream, GetRequestIDsByCertIDs; Single has
--                   Get and ScanStreamRow
--   Store/AuditQuery  store/audit.go: buildAuditWhere, escapeLikePattern, the page and the SQL of
--                   ListEvents
--   Base            shared helpers: texts, maps, sorting by key, Go's int of 64 bits
--   Tests           runs of the definitions, and the theorems at concrete inputs
--
-- How the state corresponds. A Go map is an association list with one lookup (Base/Dict). A method
-- that holds its store's mutex is one step, so a concurrent run is a sequence of steps (the Trace
-- and Replay modules). An instant is a number of nanoseconds; a method takes the clock readings
-- that it makes and the values of the random source as arguments, `none` being its error. The
-- witness client's Verify holds no lock over its RPCs: what other calls do to the cache meanwhile is an
-- argument of `verify`, and a run of calls may have the end of a Verify that began before others. The
-- workers of a bulk job meet only in critical sections, so a run is any order of these. Sums in
-- uint32 and uint64 wrap around, and the ints of the audit pages do (Base/Int64). LIKE, which is not
-- the dashboard's, is defined beside the theorem that uses it. The redaction is the one loop on fuel: one step for each character of its text and one
-- more, and it is shown that it never runs out; all other loops run over finite lists.
--
-- Parameters of the model: the two RPCs of the witness, the gateway's HTTP server and the decoding of
-- JSON, the database, the rate limiter, the identity provider and its token library, bcrypt,
-- url.Parse, the escapes of net/url, the parsing of numbers and days, os.Getenv, the case mapping of
-- Unicode.
--
-- Not modelled: response headers and cookie attributes, HTML templates, log lines, the tickers
-- that call the collectors, and the other components of the dashboard (the audit
-- browser's handler and the saved filters, the rest of the audit store, the report, the guard on
-- personal data, the server's routes).
pub mod Base
pub mod Auth
pub mod Web
pub mod Config
pub mod Gateway
pub mod Health
pub mod Handlers
pub mod Store
pub mod Witness
pub mod Metrics
pub mod Tests
