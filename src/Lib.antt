-- ===== src/Lib.antt =====
-- A model of the SIWA SDK (Sign In With Agent), packages/siwa/src, of the keyring proxy that holds the
-- agent's key, packages/keyring-proxy, and of the second factor that approves its signatures,
-- packages/2fa-telegram and packages/2fa-gateway, with the theorems that these parts promise.
--
-- An agent fetches a nonce, signs a text message that names its address, its ERC-8004 agent and the
-- nonce, and the server verifies the message, the ownership and optional criteria (siwa.ts,
-- registry.ts, nonce-store.ts). It then hands out a receipt (receipt.ts), which the agent sends with
-- every signed request; a request is verified with its receipt and perhaps a reverse captcha
-- (erc8128.ts, captcha.ts). The wrappers of four web frameworks do this in front of a handler and can ask
-- for a payment (server-side-wrappers, x402.ts). The agent signs through the keyring proxy, which accepts
-- calls with an HMAC (proxy-auth.ts) and, before it signs, asks the second-factor server, which puts the
-- request before a user in Telegram and waits for a button, whose press comes back through the gateway.
--
--   Base         lists, options, results, JavaScript strings, numbers, JSON values and maps
--   Runtime      Node's crypto and codecs, a parameter, with what is documented of them as laws
--   Token        the signed tokens of siwa.ts, receipt.ts and captcha.ts: signNonceToken,
--                verifyNonceToken, signToken, verifyToken; UTF-8 and timingSafeEqual in Token/Bytes
--   Message      siwa.ts: buildSIWAMessage and parseSIWAMessage
--   Response     siwa.ts: the verification result and buildSIWAResponse
--   Registry     registry.ts: resolveURI, getAgent, getReputation over a client, a parameter
--   Receipt      receipt.ts: createReceipt and verifyReceipt
--   NonceStore   nonce-store.ts: the in-memory store; over Redis and Workers KV in NonceStore/Remote; the
--                table of expiries that the first two implement in NonceStore/Refinement
--   Verify       siwa.ts: verifySIWA as a sequence of steps that go on, refuse or throw, with the
--                nonce store's state threaded through; the criteria in Verify/Criteria
--   Captcha      captcha.ts: createCaptchaChallenge; verifyCaptchaSolution, packCaptchaResponse,
--                unpackCaptchaResponse and solveCaptchaChallenge in Captcha/Solutions and Captcha/Submission
--   Erc8128      erc8128.ts: verifyAuthenticatedRequest, in Erc8128/Checks, and the replay store; the
--                agent's side (createErc8128Signer, signAuthenticatedRequest, retryWithCaptcha) in
--                Erc8128/Agent
--   Issue        siwa.ts: createSIWANonce; signSIWAMessage in Issue/Signing
--   ProxyAuth    proxy-auth.ts: computeHmac and verifyHmac
--   ProxyClient  signer/keyring-proxy.ts and keystore.ts: proxyRequest, the signer that calls the keyring
--                proxy and the administration of its wallet
--   Payments     x402.ts: the session store and processX402Payment
--   Wrappers     server-side-wrappers: the payment gate that express.ts, fastify.ts, hono.ts and next.ts
--                share; each wrapper in Wrappers/Frameworks, the CORS headers in Wrappers/Cors
--   Addresses    addresses.ts: the tables by chain
--   Resolver     client-resolver.ts: the resolver of RPC URLs with its cache
--   Keyring      keyring-proxy/src/index.ts: the encrypted keystore; the wallet in Keyring/Wallet, what is
--                signed and shown in Keyring/Transactions, the endpoints and the middleware in
--                Keyring/Endpoints, serializeBigInt in Keyring/Serialize; tfa-client.ts in Keyring/Approval
--   Approvals    2fa-telegram/src/approval-store.ts: the pending requests with their timers and promises;
--                approval-handler.ts in Approvals/Requests, internal-webhook.ts in Approvals/Webhook, and
--                the steps of the server as a relation in Approvals/Transitions; transaction-decoder.ts in
--                Approvals/Decoder and message-formatter.ts in Approvals/Messages
--   Gateway      2fa-gateway/src/index.ts: the rate limit and the webhook
--   Tests        the theorems at concrete inputs
--
-- A string is the list of its UTF-16 code units. A number is an integer or NaN, without rounding above
-- 2^53 and without fractions, but for reputation scores and their minima, which are doubles with an
-- arithmetic that is a parameter (Base/Doubles); times are whole milliseconds. A call that may throw gives a `Result`.
-- The clock is an argument. Every loop is structural recursion; only `digits` in Base/Numbers runs on
-- fuel, one more than the number that it prints, and the round trip of Base/Numbers/RoundTrip shows that
-- this is enough.
--
-- Not modelled: expressToFetchRequest and nextjsToFetchRequest of erc8128.ts, the registration
-- transaction of registry.ts, the HTTP client and the headers of x402.ts, the other wallet adapters under
-- signer, identity.ts and tba.ts, the second keystore of the keyring proxy, formatApprovalMessage and the
-- audit log of the second factor, and the packages siwa-testing and siwa-website, which are demos, test
-- flows and pages. The HTTP signature itself is the library @slicekit/erc8128, a parameter, as are viem,
-- the cryptography and the calls over HTTP.
pub mod Approvals
pub mod Base
pub mod Message
pub mod Runtime
pub mod Token
pub mod Receipt
pub mod NonceStore
pub mod Response
pub mod Registry
pub mod Verify
pub mod Wrappers
pub mod Captcha
pub mod Erc8128
pub mod Issue
pub mod Gateway
pub mod Keyring
pub mod ProxyAuth
pub mod ProxyClient
pub mod Addresses
pub mod Resolver
pub mod Payments
pub mod Tests
