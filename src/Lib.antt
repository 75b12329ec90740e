-- ===== src/Lib.antt =====
-- A model of the authority path of AMCA Core: from an event that is offered to the ledger, over the
-- proof of a candidate's claims, to the decision of the release gate.
--
-- The parts, and how they interact. The kernel of a run writes typed events to a ledger. The ledger
-- checks an event, its place in its run and the hash of its payload, and keeps a clone. The proof
-- engine takes the receipts and the observations that the events of the run admitted, and checks each
-- claim of a final candidate against them. The release gate turns the proof into a decision, and
-- renders the approved claims for a release.
--
--   Common      tests on numbers, lists, texts, decidable equality, and the result type.
--   Protocol    packages/protocol/src: JSON values (Json), and one module for each group of types:
--               Evidence, Claims, Effects, Preflight, Approvals, Mutations, Proofs, Events, Payloads.
--               Host holds what the JavaScript engine provides.
--   Contracts   packages/contracts/src/hash.ts and schemas.ts. Utf8: utf8Bytes. Sha256: sha256Hex,
--               its padding in Sha256/Padding. Canonical: canonicalJson and canonicalHash, and
--               `reparse`, which is the JSON.parse of a canonical text. Json: the objects of the
--               protocol as JSON values. Schemas: the schemas, as tests of values of their types.
--   Ledger      packages/ledger/src/semantic-ledger.ts. Error: the codes. Event: the checks, the hash
--               and the clone of an event. Stream: validateOrderedRunEvents. Memory:
--               InMemorySemanticLedger, whose two maps are functions from run ids.
--   Proof       packages/proof/src. Resolver: evidence-resolver.ts. Mismatches: mismatch-builder.ts.
--               Predicates, Evaluation and Engine: proof-engine.ts.
--   Kernel      packages/kernel/src. ReleaseGate: release-gate.ts. Events: events.ts. InMemoryLedger:
--               in-memory-ledger.ts, the log of one run. Run: run-kernel.ts. Its state and errors
--               are in Run, appendEvent in Run/Append, the checks in Run/Guards
--               and Run/Writes, the methods in Run/Record, Run/Commit, Run/Submit and Run/Session.
--               Run/Steps has the states that calls make; Run/Grown the writes behind them.
--   Projections packages/projections/src/run-projection.ts.
--
-- A definition has the name of its function, in snake case. A function that throws returns
-- `Result`, with the code of the error; messages of errors are not modelled, those of mismatches and
-- decisions are. A promise is the value it resolves to: each operation of the ledger runs in one turn,
-- so no other operation comes in between. An operation that changes the ledger returns the new one.
--
-- A method of the run kernel takes the state and returns its result or the error it threw, with the
-- state at that point: a write before a throw stays. A class's list that only its own methods push
-- to is a field of the state. `clock n` is what the clock returns at its n-th read, so that any clock
-- is one of these functions. A schema is a Boolean test of a value that has the type of its contract;
-- that a value has the type, with no key besides, is what zod checks first and is left out.
--
-- What the engine provides is a field of `Host`: the JSON text of a number and of a string, the order
-- of localeCompare, which is total, Date.parse, toUpperCase and the z.iso.datetime test of zod. Nothing
-- else is assumed of them, but that the order of localeCompare is transitive, by the one theorem that
-- names it as a hypothesis.
--
-- Words of SHA-256 are numbers cut to 32 bits at each sum. The loop over the blocks runs for the
-- padded length divided by 64; the schedule runs for the 48 words behind the first sixteen; every
-- other loop is a recursion on a list. So no fuel can run out.
--
-- Texts are sequences of code points: lone surrogates are left out, and so are, of the values of
-- JavaScript, functions, symbols, sparse arrays, class instances and the number -0, and the keys of an
-- object that the engine orders by number. Not modelled: the ledger-backed kernel, the effect broker,
-- reconciliation, replay, the normalizer, and the adapters and commands around them.
pub mod Common
pub mod Protocol
pub mod Contracts
pub mod Ledger
pub mod Proof
pub mod Kernel
pub mod Projections
