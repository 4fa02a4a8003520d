-- ===== src/Lib.antt =====
-- Verification of the diamond-dev-tools: the tools that operate, test and observe the DMD Diamond
-- network. The largest part is the synchroniser, which fills a Postgres database with what the chain
-- did, block by block, and the web API that serves from that database. Modelled are its loop and the
-- transaction of a block with the rows that the block's events write, the validators' rows, the
-- rewards, the bonus scores and the DMD names; the two middlewares that guard the API, its reward
-- statistics and its directory of names; and, of the tools for nodes, the node processes, the choice of
-- nodes by arguments, the restarts of the watchdog and the sender of transactions.
--
-- How the parts interact: `EventProcessor.processEvents` hands each event of a block to
-- `EventVisitor`, whose methods read and write tables through `DbManager`, inside the transaction of
-- the block that `executeInTransaction` opens. Two kinds of rows escape that transaction: those of
-- `stake_transactions` and those of the names. A request to the API passes `authenticate`, which
-- attaches the key, and then `rateLimiter`, which counts by that key. The watchdog restarts nodes by
-- `stop` and `start` of `NodeState`.
--
-- Files, and what they are about:
--   Prelude, Prelude/*: shared lists, tests, keys and integers over the native numbers.
--   Ether: src/utils/ether.ts. A text is a list of character codes, a buffer a list of bytes.
--   Database, Database/*: Postgres and its query builder, as the parameter `Database` with laws for
--     INSERT, UPDATE and SELECT under a primary key; Database/Tables meets them with lists.
--   Events: the staking and availability events of src/eventsVisitor.ts.
--   Stake, Stake/*: the table `stake_history` and its methods in src/db/database-persistent.ts.
--   Visitor, Visitor/*: `EventVisitor` for these events (Visitor/Handlers and Visitor/Dispatch), the
--     delegation tables, src/eventProcessor.ts and the transaction around a block.
--   Names, Names/*: the name events of src/eventsVisitor.ts, src/utils/hex.ts, `upsertDmdName` and
--     `insertDmdNameEvent`.
--   BonusScore, BonusScore/*: src/bonusScoreReasonDetector.ts, `updateBonusScore`, and the factor that
--     src/db/bonusScoreProcessor.ts watches; BonusScore/Batches has the batches of pools there.
--   Validators, Validators/*: src/db/validatorObserver.ts, with the methods of `DbManager` that keep
--     `pending_validator_state_event`.
--   Sync, Sync/*: the loop over the blocks in src/db/runFillDb.ts.
--   Block, Block/*: the transaction of a block there, with src/eventProcessor.ts: Block/Program has
--     programs that may throw, Block/Body and Block/Transaction the code, and Block/Bootstrap the
--     start at a later block.
--   Rewards, Rewards/*: the rewards of an epoch, in src/db/runFillDb.ts and src/contractManager.ts.
--   Connection, Connection/*: `executeWithRetry` of src/db/database-persistent.ts; that another caller
--     reconnects at the same time is an argument.
--   FastTxSender, FastTxSender/*: src/tools/FastTxSender.ts.
--   Fetching, Fetching/*: the events that src/contractManager.ts collects.
--   WebApi, WebApi/*: db/express/src/controllers/rewards.ts (the statistics of validators) and names.ts
--     (the directory of names): WebApi/EpochRows, WebApi/RewardStats, WebApi/NameList and
--     WebApi/NameRows have the code.
--   Nodes, Nodes/*: `NodeState` of src/net/nodeManager.ts, and in Nodes/Selection
--     src/remotenet/remotenetArgs.ts.
--   Watchdog, Watchdog/*: the restarts of src/watchdog.ts.
--   Javascript: `parseInt` and `split`.
--   RateLimit, RateLimit/*: db/express/src/middleware/rateLimiter.ts.
--   Authenticate, Authenticate/*: db/express/src/middleware/authenticate.ts.
--   The modules named Examples hold the tests and concrete runs.
--
-- Conventions: a method keeps its name in snake case. An exception is `none`. A table is a value that
-- a method takes and returns; awaits are sequential, as the code awaits each call, but for the checks
-- of the watchdog, which it starts without awaiting them. Amounts are wei as
-- integers, which the numeric columns and `BigNumber` hold exactly. Block numbers, counts and times
-- are natural numbers far below the bounds of JavaScript's numbers. Loops are over lists, over the
-- three attempts of a retry, and over the 64 digits of a label hash, a fixed number that a 256-bit id
-- fits; only the endless loop of the synchroniser is driven for a number of turns, and theorems say
-- that finitely many turns bring it to the head of the chain and past a stop block.
--
-- Not modelled: the other contract calls over web3, process control, ssh and file tools, the watchdog's
-- polling, dashboards and notebooks (I/O); foreign keys, but for the tables of Block;
-- the other listings of the API and the reporting queries.
pub mod Prelude
pub mod Ether
pub mod Database
pub mod Events
pub mod Stake
pub mod Visitor
pub mod Names
pub mod BonusScore
pub mod Validators
pub mod RateLimit
pub mod Authenticate
pub mod Connection
pub mod FastTxSender
pub mod Fetching
pub mod Sync
pub mod Javascript
pub mod Watchdog
pub mod WebApi
pub mod Block
pub mod Nodes
pub mod Rewards
