-- ===== src/Lib.antt =====
-- Verification library of the TypeScript code of this repository: the SDK in typescript-sdk/src
-- and the shared code of the web app in app/lib.
--
-- The parts and how they interact. An agent signs a message that `Signing` computes from a request.
-- `SelfAgentVerifier.verify` proves the signer from the signature, refuses a request that it has
-- recorded before (`Replay`), looks the signer up on the chain (`Registry`) behind its caches, checks
-- the proof's provider, the number of agents of the human and the credentials, and limits the rate per
-- address (`RateLimiter`). `Builder` makes such verifiers, and `Middleware` puts one in front of
-- an HTTP handler. `VerifyAgent` asks the chain without a signature. The app's API routes use a
-- replay guard and a rate limit on a shared store (`ReplayGuard`, `SecurityStore`) and short-lived
-- tokens for the AA proxy (`AaProxyAuth`). A registration lives in an encrypted token (`SessionToken`)
-- that the routes of `AgentApi` open and pass on, and that `RegistrationFlow` polls from the client's
-- side. `A2aServer` answers JSON-RPC requests on tasks.
--
-- Base                    text, maps in insertion order, lists, signed integers, Boolean tests
-- Signing                 typescript-sdk/src/signing.ts: canonicalizeSigningUrl, computeBodyHash,
--                         computeSigningMessage
-- RateLimiter             class RateLimiter of typescript-sdk/src/SelfAgentVerifier.ts
-- Replay                  checkAndRecordReplay and pruneReplayCache of the same file
-- Registry                the networks of typescript-sdk/src/constants.ts and the calls of
--                         typescript-sdk/src/contract-types.ts
-- Verifier                SelfAgentVerifier: its data, construction and clearCache; Verifier/Auth is
--                         steps 1 to 5 of verify, Verifier/Chain the data of steps 6 to 11 with
--                         checkOnChain, Verifier/Verify the steps that change state and verify itself;
--                         Signer, Flaws, Replays, Expiry and Credentials are theorems on its calls
-- AgentSdk                SelfAgent and Ed25519Agent of typescript-sdk/src: construction, signRequest
--                         and getInfo
-- Builder                 VerifierBuilder and SelfAgentVerifier.fromConfig
-- Middleware              SelfAgentVerifier.auth, the Express middleware
-- VerifyAgent             the function verifyAgent, and typescript-sdk/src/types.ts
-- SecurityStore           app/lib/securityStore.ts and app/lib/rateLimit.ts
-- ReplayGuard             app/lib/replayGuard.ts
-- SessionToken            app/lib/session-token.ts
-- ApiResponses, AgentApi  app/lib/agent-api-helpers.ts; AgentApi/Register, Export and Deregister are
--                         the routes of app/app/api/agent/register and deregister that follow a
--                         session that was started
-- RegistrationData        typescript-sdk/src/registration.ts
-- RegistrationFlow        typescript-sdk/src/registration-flow.ts
-- A2aTypes, A2aServer     typescript-sdk/src/a2a/types.ts and server.ts
-- A2aClient               typescript-sdk/src/a2a/client.ts: Calls, Events (the stream) and Cards
-- McpEgress, McpAuthz     app/lib/mcp/egress.ts and authz.ts
-- AgentCard               typescript-sdk/src/agentCard.ts; AgentCard/Write is app/lib/writeAgentCard.ts
-- AaProxyAuth             app/lib/aaProxyAuth.ts
--
-- How the code is modelled. An operation on an object becomes a function from the object's record
-- to a result and the record after it. `verify` is a chain of steps in the monad of Verifier/Flow,
-- where a step goes on with a value, replies, or throws, each with the verifier after it. A rejected
-- call or a thrown error is `none`. Each reading of the clock is an argument or a field of `Clock`,
-- in milliseconds. A bigint or a number that is never negative is a natural number, and any other
-- a signed one, all exact. The libraries (ethers, ed25519, Node's crypto, Buffer, JSON, URL), the
-- chain, the Upstash store and the task handler of an application are parameters; where a theorem
-- needs more of them than their types, it is a named hypothesis, and Samples modules have
-- concrete functions that meet it. A text is the list of its UTF-16 code units.
--
-- Loops are structural, save `print_nat`, which divides by ten in n + 1 rounds: enough, since a
-- number has at most that many digits, and the polling loop of `RegistrationFlow`, whose fuel is the
-- number of polls and one more: enough where the intervals fill the timeout.
--
-- What is left out. Calls of `verify` run one after the other: the code awaits the chain between
-- steps, and the interleaving of two calls in one process is not modelled. Letters change case in
-- ASCII only. The encoding of a lone surrogate, at which the ethers package throws, is not an error
-- here. The texts of the verifier's and the routes' refusals are constructors with the values they
-- print. Environment variables that hold numbers enter as numbers. A property of a session is not
-- named by an array index. The agents' other methods, the routes that start a registration, the
-- other API routes, the MCP handlers and the user interface are not modelled, nor are the contracts
-- and the SDKs in other languages.
pub mod Base
pub mod RateLimiter
pub mod Replay
pub mod Signing
pub mod Registry
pub mod Verifier
pub mod Builder
pub mod AgentSdk
pub mod Middleware
pub mod VerifyAgent
pub mod SecurityStore
pub mod ReplayGuard
pub mod A2aTypes
pub mod A2aServer
pub mod A2aClient
pub mod AgentCard
pub mod AaProxyAuth
pub mod McpEgress
pub mod McpAuthz
pub mod SessionToken
pub mod ApiResponses
pub mod AgentApi
pub mod RegistrationData
pub mod RegistrationFlow
