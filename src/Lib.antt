-- ===== src/Lib.antt =====
-- Helix ID Python SDK: a model of the client library, with its correctness.
--
-- The SDK talks to the Helix API and signs locally. A caller makes a `HelixClient`; its methods send
-- requests through an `HttpAdapter`, which turns error responses into `HelixError`s. A signed
-- presentation (VP) is a JSON dict with an Ed25519 proof over its canonical text; it travels as
-- base64url in a header or in the `_meta` of a tool call, and a middleware checks it there. A wallet
-- holds a key and credentials, in memory and in an encrypted file.
--
-- Parts, with the source of each:
--   Base, Text          Booleans, lists and integers on the native numbers; `str` as a list of code
--                       points, hex, decimal, the order of texts
--   Base58              src/helix_sdk/vp_crypto.py and src/helix_sdk/keys.py: base58btc_encode and
--                       base58btc_decode, of which the two files have one copy each
--   Keys                src/helix_sdk/keys.py: private keys and multibase
--   Json, Canonical     `json.dumps` of the standard library, `json.loads` in Json.Loads, and
--                       _sort_value and to_canonical_json of src/helix_sdk/vp_crypto.py
--   Errors              src/helix_sdk/codes.py and src/helix_sdk/errors.py: the codes, a function for
--                       each class, and map_api_error with its table
--   Http                src/helix_sdk/http_adapter.py; Http.Url is `quote` and `urlencode`
--   Client              src/helix_sdk/client.py: the constructor here, the methods in the children by
--                       subject; Client.Calls names every method that reaches the API
--   Proof               src/helix_sdk/proof.py, and the hashing and signing of
--                       src/helix_sdk/vp_crypto.py; Proof.Calendar is the calendar that `astimezone`
--                       goes by, Proof.Moments is on the order of times
--   VpBuilder           src/helix_sdk/vp_builder.py
--   Base64, VpTransport src/helix_sdk/vp_transport.py and the base64 that it uses
--   Scope               src/helix_sdk/scope.py
--   Mcp                 src/helix_mcp_middleware
--   Did                 src/helix_sdk/did.py
--   Session             src/helix_sdk/session_manager.py: Session.Split is `split(".")`, Session.Claims
--                       is _assert_claims
--   KeyPairs            src/helix_sdk/keys.py: key pairs, sign_data and verify_signature
--   Jwt                 src/helix_sdk/jwt.py
--   Wallet              src/helix_sdk/wallet.py: Wallet.Credential is WalletCredential, Wallet.Save the
--                       encrypted file, Wallet.Add is add_credential, Wallet.Select select_grant and
--                       get_latest_credential
--   Tools               src/helix_sdk/tool_vp.py, src/helix_langchain and src/helix_crewai
--   Tests               concrete values
--
-- How state is modelled: a `HelixClient` and an `HttpAdapter` are records that no method changes. A
-- call is an `Action`: it takes the requests sent so far and returns a result, a value or an
-- exception, with the requests after it. The server is an argument, a function of the requests so far
-- and of the new one, so that it may answer in any way. Exceptions are values: a `HelixError` or a
-- built-in one with its class and a word of its message. An `AgentWallet` is a record that `save` and
-- `add_credential` take and return, with the files, a function of paths; a call inside a wrapped tool
-- takes and returns the headers of the context variable, too.
--
-- Parameters: SHA-256 and Ed25519 are the record `Crypto`, and `IsSound` is what the signing relies
-- on; HMAC-SHA256 is an `Hmac`, with `IsDigest`; PBKDF2 and AES-GCM are a `Sealing`, with `IsSealing`;
-- `str()` of a value is `show`; `json.loads` is a `Loads` of octets or a `LoadsText`, for which
-- Json.Loads has a reader; what `BaseTool` of a framework gives a new tool is `base_attribute`; random
-- values and the clock are arguments.
--
-- Fuel: the only loops on fuel are the carry of base58, which gets the carry itself as fuel and
-- divides it by 58 or 256 in every round, and the digits of a number, which get the number. All
-- other loops are structural.
--
-- Limits: JSON has no floats; a text has no lone surrogates, which UTF-8 refuses; the numbers in a
-- query string are integers; the years of a time have four digits, in its zone and in UTC, and the
-- offset of a zone is whole seconds; `int` of a text reads ASCII digits only, with underscores
-- between them, and no limit on their number; timeouts are whole seconds.
--
-- Not modelled: HelixIDCallbackHandler of src/helix_langchain/middleware.py, whose one method does
-- nothing, `repr`, and the re-exports of the packages.
pub mod Base
pub mod Text
pub mod Base58
pub mod Keys
pub mod Json
pub mod Canonical
pub mod Errors
pub mod Http
pub mod Client
pub mod Proof
pub mod VpBuilder
pub mod Base64
pub mod VpTransport
pub mod Scope
pub mod Mcp
pub mod Did
pub mod Session
pub mod KeyPairs
pub mod Wallet
pub mod Tools
pub mod Jwt
pub mod Tests
