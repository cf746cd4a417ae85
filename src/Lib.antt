-- ===== src/Lib.antt =====
-- The off-chain client of the Optics bridge, modelled from typescript/: the library optics-provider,
-- with which an application connects to the chains, follows messages and sends tokens; the message
-- formats that optics-tests/lib packs as the contracts do; the package optics-deploy, which deploys
-- and connects the contracts on several chains; and the monitor of contract-metrics.
--
-- The parts, and how they interact:
-- - Prelude: lists, maps, exceptions as values (`Results`), and methods that mutate an object and may
--   throw (`Exec`: the state comes back beside the exception, as in JavaScript).
-- - Wire: bytes, big-endian numbers, and what is used of `ethers` on hexadecimal texts. `HexLib` is a
--   parameter with its documented behaviour as the laws `IsLawful`; `HexText` implements it.
-- - Messages: identifiers (`canonizeId`, `evmId` of optics-provider/src/utils.ts,
--   `ethersAddressToBytes32` of optics-tests/lib/core.ts), Optics messages (`formatMessage` of
--   optics-tests/lib/core.ts and `parseMessage` of optics/messages/OpticsMessage.ts), governance
--   messages, and bridge messages (optics-tests/lib/bridge.ts and `parseBody` of
--   optics/messages/BridgeMessage.ts).
-- - Context: the state of `MultiProvider` (provider.ts) and `OpticsContext` (optics/OpticsContext.ts)
--   is the record `Context`; each method is a function of its name on it. A method of MultiProvider
--   that calls one which OpticsContext overrides takes it as an argument. `Contracts` has the
--   collections of optics/contracts. Providers, signers and contract handles are the parameter
--   `Ethers`. A connected collection replaces the old one under its domain, where the program
--   mutates it in place: no theorem compares a handle taken before a reconnect with the collection.
-- - Events: `getEvents` and its pages (optics/events/fetch.ts), and `Annotated` (opticsEvents.ts).
--   What the chains answer is the parameter `Chain`; a method with several awaits takes a chain for
--   each.
-- - Lifecycle: `OpticsMessage` and the bridge messages. A message's state is its record, with the
--   cache of events; `Receipts` reads receipts, `Status` queries the life cycle and polls.
-- - Tokens: the token lookups, and `send` and `sendNative`, whose state is the list of the
--   transactions submitted.
-- - Config: the five configured deployments (optics/domains), as data.
-- - Deploy: the deployments of optics-deploy/src. `State` has the deploys (chain.ts, deploy.ts,
--   proxyUtils.ts, core/CoreDeploy.ts, core/CoreContracts.ts), `Proxies` the proxies (proxyUtils.ts),
--   `Suite` and `Enroll` what core/index.ts does on one chain, `Networks` what it does on several;
--   `Checks` is core/checks.ts, `Agents` the agents' configurations, `Bridges`, `BridgeChecks` and
--   `BridgeNetworks` are bridge/, and `Outputs` is verification/. A deploy is the state, a step is a
--   method on it that may throw, and a `Fleet` has the deploys under references, so that one step
--   changes one deploy and reads another. The handle of a contract is its storage, which `Solidity`
--   describes as far as a deployment uses it (the contracts of solidity/optics-core/contracts and
--   solidity/optics-xapps/contracts; `Ownable` as its documentation says). The parameter `Evm` has the
--   addresses of new contracts, the times of blocks, the encoding of `initialize` and which addresses
--   hold a contract that accepts `approve` as WETH does; the laws `IsLawful` say that an account's new contracts have different addresses. `Laws` follows the links
--   of a deploy through the phases of `deployNChains`: `Standing` describes a deploy by its links,
--   `Linked`, `Linkage` and `Setup` what enrollments make of them, `Rounds`, `Phases` and `Powers` the
--   loops over the fleet, `Checked` and `Approved` the checks, `Network` and `Complete` the whole;
--   `Pairs`, `TwoPhases` and `TwoChains` do so for `deployTwoChains`.
-- - Metrics: the monitor of contract-metrics/src (monitor.ts, metrics.ts, print.ts, config.ts). What
--   the chains have, the logs and their transactions, is the parameter `Logs`, each with its error.
-- - Samples and Tests: a toy `ethers` and chain, and the theorems at concrete inputs.
--
-- Numbers are natural numbers, of 32 bits in the formats where a theorem says so; texts are lists of
-- character codes. A `Promise.all` is run in order, and throws the first error once all have run, or at
-- once where the others change nothing. The loop over pages runs on fuel, of which one unit for each block of the
-- range is enough; `wait` runs on fuel, since it may never return, and one unit for each poll is
-- enough.
--
-- A transaction of a deployment is accepted, and changes the storage as its function says, unless that
-- function reverts. The constructor of the Replica requires its gas amounts, that of ETHHelper a WETH
-- that accepts `approve`, and a domain is encoded in 32 bits where contracts are created and routers
-- of bridges enrolled; the gas that transactions use, the `isContract` checks, the shape of configured
-- addresses, and amounts beyond 256 bits are left out. A file that a deployment writes is its content
-- under the chain's name.
--
-- Not modelled: gas overrides of the client, the text of exceptions, logging, the file system and the
-- calls of block explorers, the bridge harness TestBridgeDeploy, the gas plots and spreadsheets of
-- contract-metrics, the generated bindings of the contracts, and the rest of the contracts and the
-- agents, which are in other languages.
pub mod Prelude
pub mod Wire
pub mod Messages
pub mod Context
pub mod Events
pub mod Lifecycle
pub mod Tokens
pub mod Config
pub mod Deploy
pub mod Metrics
pub mod Samples
pub mod Tests
