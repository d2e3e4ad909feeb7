-- ===== src/Lib.antt =====
-- keystonemiddleware: what the WSGI middleware of OpenStack's Keystone does with a request's tokens.
--
-- The program. auth_token (keystonemiddleware/auth_token) stands in front of a service's
-- application. It takes the user's and the service's token off a request, finds what they stand for
-- in a cache or asks the identity server, checks them, and passes the request on with headers that
-- describe the user, or answers it itself.
--
-- The files.
--   Base, with Tests, Dicts, Text, Slices, Pieces and Options below it: dictionaries, texts, byte
--     strings and lists that the components share.
--   Exec: Python's exceptions as values, and methods over a state that may raise.
--   Urls: urllib.parse, as far as URLs are taken apart.
--   Json: the values that jsonutils.loads returns.
--   Access: keystoneauth1's AccessInfo, as far as it is read.
--   UserPlugin: keystonemiddleware/auth_token/_user_plugin.py.
--   Request, Request/AuthHeaders, Request/Catalog: keystonemiddleware/auth_token/_request.py. A
--     request is a record; its headers are an association list from names to texts or None.
--     Request/Removal, Request/Written and Request/Catalog/Regions hold the theorems.
--   Protocol/PathRules: _path_matches of keystonemiddleware/auth_token/__init__.py.
--     PathRules/Regex is Python's re on the expressions that it builds, Runs and Matches are about
--     the paths these take.
--   Protocol/Bind: _confirm_token_bind, and Protocol/Rules: validate_allowed_request, with Laws
--     each.
--   Protocol/Process: BaseAuthProtocol's process_request, _do_fetch_token and _validate_token. The
--     try blocks around the two tokens are `attempt` with `end_service` and `end_user`; Service,
--     User, Confirmed and Frame below it are about how they end.
--   Identity: IdentityServer of keystonemiddleware/auth_token/_identity.py; Asked counts what it
--     asks.
--   AuthProtocol: the class of this name, with the whole `process_request`, and
--     AuthProtocol/Retrieval with its `fetch_token`, Setup with its `__init__` (its Readings are the
--     settings that this reads), Call with `__call__` around an application, and Filter with the
--     `filter_factory` that paste.deploy calls; Filter/Enforced, Setup/Protected, Setup/Signed, Fetch,
--     Outcome, Enforcement, Decorated, Forwarded, Forged, Rejected and Expired hold its theorems, and
--     AuthProtocol/Assembled puts TokenCache and IdentityServer behind it, with Assembled/Asked on
--     what a token costs.
--   Crypt: keystonemiddleware/auth_token/_memcache_crypt.py, with Crypt/Laws. Base64 is the
--     standard library's module of this name, which it uses, and Base64/RoundTrip that decoding
--     undoes encoding.
--   Cache/Memory: _FakeClient of keystonemiddleware/auth_token/_cache.py, with the abstract cache
--     in View, the operations against it in Promise and any history of them in History. The clock is
--     an argument.
--   Cache/Tokens: TokenCache and SecureTokenCache, over the pools of Pools and the codecs of
--     Codecs; Stored and Secure hold their theorems. Lending is one _CachePool among threads, a step
--     for each event.
--   S3: keystonemiddleware/s3_token.py, with its `__init__` in S3/Setup, and Ec2:
--     keystonemiddleware/ec2_token.py, with Laws each.
--   Audit: get_action and _build_typeURI of keystonemiddleware/audit/_api.py, with Audit/Actions
--     and Audit/Uris; Audit/Maps, Audit/Targets and Audit/Events are its map file,
--     get_target_resource and _create_event, and Audit/Middleware is
--     keystonemiddleware/audit/__init__.py, with the theorems on one request in Answers and
--     Notified; Audit/Notifier is keystonemiddleware/audit/_notifier.py.
--   Config: keystonemiddleware/_common/config.py, with Config/Owners on the option that a name is one
--     of and Config/Settings on the values it finds;
--     AuthOpts: the options of keystonemiddleware/auth_token/_opts.py and _auth.py; AuthPlugin, with
--     Endpoints below it: AuthTokenPlugin of keystonemiddleware/auth_token/_auth.py.
--   Fixture: keystonemiddleware/fixture.py, and Echo: keystonemiddleware/echo/service.py.
--   Tests: runs on concrete requests, and witnesses.
--
-- Choices. A method over an object is a function from a state to a result and a state, so that what
-- was written before a raise is kept. Header names are compared as they are spelled: webob folds
-- their case, and the code spells a name in one way throughout. Numbers in JSON are natural. Lower
-- case is ASCII. Loops go over lists, by structural recursion; nothing here needs fuel.
--
-- Parameters, which are not code of the repository: keystoneauth1's access.create, adapter and
-- version_match, keystoneclient's tokens.validate, jsonutils.dumps and loads, re.match, of which
-- ReMatch in PathRules/Regex says what is documented, the clients of memcached, SHA-256, HMAC and
-- the package cryptography, oslo's constant_time_compare and split_path and bool_from_string,
-- oslo.config's objects and types, oslo.messaging, keystoneauth1's plugins, discovery and token
-- fixtures, pycadf's resources and events, and requests. In the audit a request's host_url comes
-- parsed, and configparser's reading of the map file is data.
--
-- Not modelled: logging, the body of the 401 answer, webob's decorator, which answers the HTTP
-- exceptions that a middleware raises, and the registration of options with oslo.config.
pub mod Base
pub mod Exec
pub mod Urls
pub mod Base64
pub mod Json
pub mod Access
pub mod UserPlugin
pub mod Request
pub mod Protocol
pub mod Identity
pub mod AuthProtocol
pub mod Cache
pub mod Crypt
pub mod S3
pub mod Ec2
pub mod Audit
pub mod Config
pub mod AuthOpts
pub mod AuthPlugin
pub mod Fixture
pub mod Echo
pub mod Tests
