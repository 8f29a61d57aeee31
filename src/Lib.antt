-- ===== src/Lib.antt =====
-- ProtocolLens: the flow executors of the looking glass.
--
-- The front end runs OAuth 2.0 and OpenID Connect flows in the browser. An executor is an object
-- with a state that it publishes to listeners; `execute` runs the flow step by step, calls the
-- authorization server with `fetch`, opens the authorization window where the flow has one, and
-- records every request, response and token in the timeline of its state. `abort` and `reset`
-- can be called while it waits.
--
-- Where what is modelled:
--   Flow.State, Flow.Exec, Flow.Base  `FlowExecutorBase` of
--     frontend/src/lookingglass/flows/base.ts: the state and the object (`World`), `updateState`
--     (`update_state`), `addEvent`, `addExchange`, `makeRequest`, `subscribe`, `abort`, `reset`
--     (`subscribe_world`, `abort_world`, `reset_world`), and what every `execute` starts and fails
--     with (`begin`, `fail`)
--   Flow.Jwt, Flow.Tokens  `decodeJwt` and `processTokenResponse` of the same file
--   Flow.Random  `generateSecureRandom`, `generateCodeVerifier`, `generateCodeChallenge` and
--     `base64UrlEncode` of the same file
--   Flow.Popup  the promise of `openAuthorizationPopup` in authorization-code.ts, implicit.ts and
--     oidc-hybrid.ts
--   Flows.AuthorizationCode, Flows.Implicit, Flows.RefreshToken, Flows.ClientCredentials,
--   Flows.ResourceOwner  the executors of authorization-code.ts, implicit.ts, refresh-token.ts,
--     client-credentials.ts and resource-owner.ts beside it; Flows.Grant has the lines that they
--     share, and Flows.AuthorizationCode.Authorize and Flows.Implicit.Authorize the authorization
--     requests and callbacks
--   Flows.DeviceCode, Flows.DeviceCode.Poll  the executor of device-code.ts, and its `pollForToken`
--   Flows.Hybrid, Flows.Hybrid.Authorize, Flows.Hybrid.Hashes  the executor of oidc-hybrid.ts, its
--     authorization request and callback, and its `validateCHash` and `validateAtHash`
--   Crypto, Crypto.Storage  frontend/src/utils/crypto.ts
--   Factory, Factory.Create  the table of flows and `createFlowExecutor`, `getFlowInfo`,
--     `listSupportedFlows`, `getFlowRequirements` of executor-factory.ts
--   Hooks.Normal, Hooks.FlowIds  `mapFlowId` of frontend/src/lookingglass/hooks.ts
--   Hooks.Executor, Hooks.Session, Hooks.Simulation  `useRealFlowExecutor`, `useLookingGlassSession`
--     and `useFlowSimulation` of the same file: the state of a hook and a function for each call,
--     message and timer
--   Hooks.Socket  `useWebSocket` of frontend/src/hooks/useWebSocket.ts; Hooks.Socket.Runs has the
--     runs of a mounted hook
--   Registry, Registry.Actors  the cache of `FlowRegistry` and `getActorsForFlow` in
--     frontend/src/lookingglass/registry.ts
--   Js  values of type `unknown`, `atob` and `btoa`, and string maps with the order of
--     `URLSearchParams`
--
-- How it is modelled. A method is a function from the world to an outcome (a value, an
-- exception's message, or a promise that never settles) and the world it leaves. The browser is
-- the parameter `Env`: random bytes, clock, digest, network answers and window events are
-- functions of the number of the call, so that one environment stands for any behaviour over
-- time. While the executor waits for the network, a digest or the window, an environment may
-- abort it, reset it and add or remove listeners, in any number and order; `NoReset` says that
-- nobody resets it. `execute` of the client credentials flow with its secret is `run`; without a
-- secret it is `refuse_config`. Loops are structural recursion on a list. The polls of the
-- device flow are the exception: `ticks` bounds how often the interval timer fires, a run that
-- would poll once more stays pending, and a theorem gives a number of ticks that is enough. A
-- poll is taken to be answered before the timer fires again, or never. Its timer is not a value
-- of the model: `abort` of the device executor clears it and sets the signal, and `tick` reads
-- the signal. A request may be left without an answer (`unanswered`); `Answers` says that none
-- is.
--
-- Not modelled: numbers that are not integers; UTF-16 units outside ASCII (texts are measured in
-- characters); the variation selector in the titles with a warning sign; the text of errors that
-- the engine raises, which are parameters; `execute` called again before it has ended; listeners
-- that throw or call back into the executor; polls of the device flow that overlap; calls of
-- `createFlowExecutor` with an id that names a member of `Object.prototype`; React's order of
-- effects and re-rendering. The other flows (SAML, SCIM, SPIFFE), the older `FlowExecutor` of
-- executor.ts, the registry's translation of protocols and steps, the hooks that only load data,
-- the formatters, the user interface and the servers are outside.
--
-- How the proofs are laid out. Flow.Respects has the conditions on a relation between worlds
-- (`Law`) and the rules by which a method stays in it; Flow.Listeners and Flow.Timeline have two
-- such relations, and Flows.Runs and the children of the flows go from the methods to whole
-- runs. Flow.Outcome and Flows.Endings do the same for how methods end and how a run reports
-- what its `try` block did, Flow.Inversion for what a method that returned has gone through.
-- Flow.Watching has the runs that nobody aborts, Flow.Total and Flow.Yields the methods that
-- always return and what they return; the termination of the device flow's polls rests on them.
-- The hooks and the registry are step functions on a state (the timers of a simulation fire in
-- the order in which they are due, those due at once in the order in which they were set); their
-- invariants are records that every step keeps, over a relation (`Run`, `Reaches`) of the states
-- that can be reached.
pub mod Prelude
pub mod Js
pub mod Flow
pub mod Flows
pub mod Hooks
pub mod Registry
pub mod Crypto
pub mod Factory
pub mod Tests
