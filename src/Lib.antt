-- ===== src/Lib.antt =====
-- SyncHook keeps the state of liquidity pools that live on several chains, agrees on it through
-- operators, and decides when liquidity should move between chains. This library models the Go code of
-- AVS that holds that logic.
--
-- The program's parts, the files that model them, and how they interact:
-- - AVS/pkg/state/aggregator.go keeps for each pool the states its chains report, and metrics over
--   them: Pool has the structs, Aggregator the methods of `Aggregator` (`UpdatePoolState` is
--   `update_pool_state`, and so on, each name in this library's spelling). A method holds the lock for
--   its whole body, so it is one function from the aggregator before the call to the one after it.
--   Aggregator/Unordered relates aggregators that list the same entries of their maps in different
--   orders, and Aggregator/Views is the quotient by that relation.
-- - AVS/pkg/state/validator.go checks a reported state against the pool's global state, and operators'
--   signatures: Validator, with the calls of go-ethereum and sha256 as the record `Crypto` of
--   Validator/Signing, and what is documented of signatures as `Signatures65` there.
-- - AVS/pkg/state/predictor.go predicts a pool's price and liquidity from its global state: Predictor,
--   with the trend of the prices in Predictor/Trend. Pipeline follows a pool from its update through
--   the validator and the predictor.
-- - AVS/aggregator/aggregator.go is the service. Service/Tasks has `processTasks` and
--   `processConsensus`, Service/Pools has `aggregateStates` and `checkRebalancingNeeds` with what they
--   call, Service/Starting has the loops that `Start` begins with their tickers, and Service/Loops
--   what they do, each tick of a timer being one step of the relation `Step`. The service repeats the
--   arithmetic of AVS/pkg/state, and its copies are definitions of their own.
-- - AVS/pkg/monitoring/alerts.go keeps the alerts: Alerts has the operations of `AlertManager`,
--   Alerts/Reading those that list and count the alerts, Alerts/Checks has `CheckThresholds` as a
--   table of its seven checks, Alerts/Lifecycle is about `ResolveAlert`, and Alerts/Handling has the
--   calls and the receptions from the two channels as steps, with the handlers, which are functions on
--   a state of theirs. It stands apart from the other parts: what it is given are metrics and calls.
-- - AVS/pkg/monitoring/monitor.go and metrics.go are what the operator reports to Prometheus.
--   Monitoring has the operations of `Monitor`, with the check of its health in
--   Monitoring/HealthCheck; Monitoring/Running has its calls and the ticks of the loops that its
--   `Start` begins, as steps of `Step`; Monitoring/Expiry and Monitoring/Counting follow its alerts
--   and its counts along the steps. Metrics has `Metrics` with all that is recorded. The default
--   registry of Prometheus is the record `Registry` of Monitoring/Registration, and what is documented
--   of it is `IsLawful` there.
-- - AVS/pkg/utils/bigint.go: Decimal, with `SetString` and `String` of math/big in base 10 on lists of
--   bytes.
-- - AVS/pkg/across/client.go and AVS/pkg/config/config.go: Bridge has the check and the cost of a
--   rebalancing request and the lookup of supported chains, Bridge/Service the methods of the bridge
--   client, and Defaults the configurations with their checks, of which Defaults/Values has the
--   defaults. Defaults/Loading has the decoding of their files.
-- - AVS/pkg/blockchain: Blockchain has the interface of a client and the one that serves any chain,
--   its children those of Ethereum, Arbitrum and Polygon; Blockchain/Agreement compares them with the
--   default configuration. Blockchain/Subscription has `SubscribeToNewBlocks` of all four as one
--   relation: the goroutine that makes blocks, the channel, the context and the receiver.
-- - AVS/internal is the operator as a process. Settings has the check of the configuration
--   (config/config.go); Chain a connection to a chain (blockchain/chain.go), where what go-ethereum
--   computes is the record `Ethereum`; Across the client of the bridge (across/client.go); Rebalancing
--   the rebalancer, which asks the chains and calls the bridge (rebalancer/rebalancer.go); Operator
--   what `New` makes of all these and how `Run` starts and stops them (operator/operator.go).
--   Settings/Loading is how the configuration is loaded, over viper as the record `Viper`, of which
--   Settings/Layers names what is documented (`IsLayered`); Logging is the logger (logger/logger.go).
--   Operator/Shutdown has the goroutines of `Run` as moves of a process, from their start to the end
--   of `Run`; Goroutines is how each service of them starts its own and waits for them
--   (monitor/monitor.go and rebalancer/rebalancer.go), and ChainMonitor what the monitor processes at
--   a tick. Avs has `AVS` and the client of EigenLayer (eigenlayer/avs.go and client.go).
-- - AVS/pkg/eigenlayer: Registration has the manager of registration.go, over the interface of the
--   contracts as the record `Client`; Registration/Unimplemented the client of client.go.
-- - AVS/operator/operator.go: AvsOperator has `NewOperator` and `Start`, over the SDK of EigenLayer as
--   the record `Sdk`; it makes the aggregator of AVS/pkg/state, the monitor of AVS/pkg/monitoring and
--   the clients of AVS/pkg/blockchain.
-- - AVS/cmd: Commands/Operating has `runOperator` (operator/main.go), which joins the parts of
--   AVS/internal; Commands/Aggregating has `loadConfig` and Commands/Serving what `main` makes of it
--   (aggregator/main.go), and Commands/Performing the task worker (main.go).
-- - Numeric has what the packages repeat: accumulating loops and the binary search of `sqrt`. Words
--   has `uint64` subtraction, `Int64` and `Bytes` of math/big. Floats has `float64` as a parameter.
--   Prelude has integers, maps, tests and the result of a call. Tests has runs on concrete inputs.
--
-- How the code is read:
-- - A Go call returns a value or panics (`Run`): a nil `*big.Int` read, a division by zero or a ticker
--   with an interval that is not positive is a panic. The metrics of the service are registered where
--   none of their names is, and no amount of the criteria of the validator is nil. The numbers of the
--   service's configuration are not negative. An `error` is part of the value, as a constructor
--   without the text. A result that is written through a pointer is returned.
-- - `*big.Int` is an unbounded integer, and its `Div` is Euclidean. The amounts in a reported state
--   are not nil; the metrics of a pool are nil until they are first computed, hence `Option`. `Int64`
--   keeps the low 64 bits. A `uint64` difference wraps around.
-- - What a node answers over RPC is an argument, with `none` for an error. Structs of two packages
--   with the same fields, between which AVS/internal/operator passes values, are one record. A text
--   that is parsed is the list of its bytes.
-- - A Go map is the list of its entries in the order in which a `range` loop meets them, which Go
--   leaves open.
-- - Goroutines are relations of moves. Between two moves each stands at a channel, at its context or
--   at a wait group; a select with several ready cases may take any of them. In Operator/Shutdown the
--   beginning of a tick is counted apart from the other moves, and a tick lasts until the nodes that
--   it asks have answered. A panic of a goroutine ends the process before any other goroutine moves.
--   `Add` and `go` are one move, and so are the end of a routine and its `Done`.
-- - Readings of `time.Now()` are arguments. Two goroutines that change a field of `PerformanceTracker`
--   at once without a lock are taken to do so one after the other. In Service a `time.Time` is a
--   number of clock units, and `Seconds` of a duration is a parameter; a pool's time is not after the
--   reading, or the difference counts as 0, which is no older than any maximal age that is not
--   negative.
-- - `float64` is the record `Float64` of operations that stands before every theorem that meets it.
--   Prometheus counters are counts, and so are the `int64` counts of operations; a histogram is the
--   list of its observations.
-- - The search of `sqrt` recurses on the accessibility of its interval under the order by width, so it
--   takes no fuel. The eight rounds of `bytes_from` are the eight digits of an `int64`.
--
-- Not modelled: logging; a caller that changes a `PoolState` after it has handed it over; the flags
-- and signals of the commands, and `runMonitor`, which calls a method that does not exist; database,
-- RPC and HTTP clients, which are I/O; the Solidity contracts.
pub mod Prelude
pub mod Words
pub mod Decimal
pub mod Floats
pub mod Numeric
pub mod Pool
pub mod Aggregator
pub mod Validator
pub mod Predictor
pub mod Pipeline
pub mod Service
pub mod Alerts
pub mod Monitoring
pub mod Metrics
pub mod Chain
pub mod Across
pub mod Rebalancing
pub mod Registration
pub mod Settings
pub mod Goroutines
pub mod Operator
pub mod Bridge
pub mod Defaults
pub mod Blockchain
pub mod AvsOperator
pub mod Avs
pub mod ChainMonitor
pub mod Logging
pub mod Commands
pub mod Tests
