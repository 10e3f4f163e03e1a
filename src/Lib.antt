-- ===== src/Lib.antt =====
-- typst-mcp: an HTTP and MCP server that renders Typst documents and keeps the results for the
-- tenants that own them.
--
-- Parts. A caller authenticates with an API key or an OIDC token (src/auth.rs); either gives a
-- `Principal` (src/principal.rs), whose identity is hashed into a `TenantId`. A request carries a
-- `Bundle` of virtual files (src/bundle.rs), checked before anything touches the file system.
-- What is rendered is kept in the `Store` (src/store.rs) under the tenant's own directories, with
-- quotas, expiry and eviction, and is handed out by short-lived signed links (src/signing.rs).
-- The validator of OIDC tokens (src/oidc.rs) fetches signing keys, keeps them for an hour and limits
-- how often it asks. The sessions of MCP clients are capped (src/session.rs).
-- Interactive clients sign in through an OAuth proxy (src/oauth_proxy.rs), which lets through the
-- redirect URIs of an allowlist (src/oauth_redirect.rs) and keeps no state of its own: what it must remember travels
-- sealed in the `state` and `code` parameters. The server hands a job to a worker process in a
-- length-prefixed frame (src/protocol.rs), and caller data goes into generated Typst source as
-- literals (src/typst_value.rs), in the bundle that a template (src/templates.rs) is assembled into.
-- What goes wrong becomes one public error (src/error.rs), and what happens is counted
-- (src/metrics.rs). All of it runs under one configuration, read at the start (src/config.rs).
--
-- Files.
--   Common            texts, tables, results, Boolean tests and their laws. A text is a list of
--                     character codes, `len` and `bytes` are those of its UTF-8 form. A hash map is
--                     an association list in no particular order, a `BTreeMap` a sorted one.
--   Bundle            src/bundle.rs. Paths: `normalise_path`; Validation: `Bundle::new`.
--   Principal         src/principal.rs. Identity: `Principal::identity`; Tenant: `TenantId::derive`
--                     and `parse`; Keys: `ApiKeys::parse` and `authenticate`.
--   Signing           src/signing.rs: `Signer::sign_for`, `verify` and `verify_params`.
--   Store             src/store.rs: data. Ids: ids, file names and paths; Removal: removal from the
--                     index and eviction; Operations: put, get, entry, list, delete, reap.
--   OauthRedirect     src/oauth_redirect.rs: `parse_allowlist`, `is_allowed_redirect_uri`.
--   OauthProxy        src/oauth_proxy.rs. Sealing: encoding and decoding of states and codes;
--                     Params: `exactly_one`, `rewrite_scope`, `rewrite_resource`; Requests:
--                     `authorize`, `callback`, `token`, on parsed parameters, with Sent, Exchanged
--                     and Forms for the parameters that are sent on.
--   Auth              src/auth.rs: `bearer`, `ApiKeyAuth::authenticate`, `OidcAuth::authenticate`.
--   Oidc              src/oidc.rs: audiences and scopes. Keys: the key cache, `inspect_key_state`,
--                     `fetch_keys`; Keys.Refreshing: `TokenValidator::key` in steps; Validate:
--                     `TokenValidator::validate`.
--   Session           src/session.rs: `CappedSessionManager`; Cap: its calls in steps.
--   Config            src/config.rs: `Config::from_source` and what it calls, and `Config::url`.
--   Metrics           src/metrics.rs: `Histogram::observe` and the updates; Page: `render`; Gauge: the
--                     compiles that start and end, in steps.
--   Diagnostics       src/diagnostics.rs: `Diagnostic::from_typst`.
--   OauthMetadata     src/oauth_metadata.rs: the documents, `register`.
--   Spawn             the errors of src/spawn.rs.
--   Render            src/render.rs: errors. Requests: `assemble`, `load_assets`, `job_limits`, `link`.
--   ApiError          src/error.rs: `ApiError` and the conversions into it; Contract: failed renders;
--                     Challenge: refused credentials.
--   Templates         src/templates.rs: data, `SourceMap::apply`. Arguments: `convert`, `arguments`,
--                     `generate_main`; Bounded: `BoundedReader`, `BoundedMessage`, `validate`;
--                     Assembly: `assemble_from`, `from_source_files`, `source_files`,
--                     `assemble_with_overrides`; Archive: `from_archive`.
--   Protocol          src/protocol.rs: `write_frame` and `read_frame`.
--   TypstValue        src/typst_value.rs: `TypstValue::write`, `write_string`, `is_ident`,
--                     `parse_date`.
--   Tests (in each)   concrete inputs.
--
-- Conventions. Unsigned integers are natural numbers with the wrap-around written out; the clock is
-- an argument, and so are the random part of an id and the failures of the file system. The disk is
-- a table from directories to the files in them, a path is the list of its components, and what a
-- failed removal of a directory leaves is a field of the store. Hashes, encoders, the URL parser, JSON and TOML
-- documents, floating-point numbers, the decoder of tokens and the inner manager of sessions come from
-- other packages and are parameters, and so are the texts of errors. Where requests interleave, a
-- step is what happens under one lock or between two awaits. An operation that changes
-- the store returns the new store beside its result, on its error paths too.
--
-- Fuel. `emit` takes five bits in each round, so that the number of bits is fuel enough;
-- `evict_locked` removes an entry in each round, so that the number of entries is; `hex` divides by
-- sixteen in each round, so that the number and one more is; trimming a repeated ending shortens the
-- text in each round, so that its length is.
--
-- Not modelled. Templates that are read from directories, the registry of templates and the writing
-- of archives (src/templates.rs), the upload of a template and the calls of the compile service
-- (src/render.rs), the workspace of a job (src/job_io.rs), `Store::open` and `rebuild_index` (a scan of the directory tree), the orchestration
-- of workers (src/spawn.rs, src/worker.rs), the compiler and its world (src/compile.rs,
-- src/world.rs), the handlers of src/api.rs and src/mcp.rs, and what only calls other packages
-- (src/fonts.rs, src/telemetry.rs, src/server.rs).
pub mod Common
pub mod Bundle
pub mod Principal
pub mod Signing
pub mod Store
pub mod OauthRedirect
pub mod OauthProxy
pub mod Oidc
pub mod Auth
pub mod Session
pub mod Diagnostics
pub mod Spawn
pub mod Templates
pub mod Render
pub mod ApiError
pub mod Metrics
pub mod Config
pub mod OauthMetadata
pub mod Protocol
pub mod TypstValue
