-- ===== src/Lib.antt =====
-- The order path of the trading bot: short_trading_bot/domain, execution and risk, the service of
-- app that drives them, the bars that ticks are gathered in, and the parts of app and api that carry
-- commands to the engine.
--
-- How the program works. A strategy evaluates each bar of an open lot (`PositionLot.evaluate`) and
-- answers with an intent. The gate (`RiskManager.check`) lets the intent pass or blocks it. An
-- intent that passes becomes an order: `OrderManager.submit` writes its row before the broker is
-- called, and maps the way the call ends to a state of the row. Fills come back in three ways: the
-- broker pushes them (the simulated broker during the call), `FillPoller.poll_once` finds them by
-- comparing the broker's cumulative executions with the rows that are there, and an order whose
-- submission timed out is first matched with the broker's list by `UnknownOrderResolver.poll_once`.
-- Each fill passes through `OrderManager.handle_fill`, which changes the rows of the order and of
-- the position, and through `PositionLot.apply_fill`, which changes the lot in memory. The service
-- (`TradingService`) is what joins them: `_on_fill` hands a fill to both, `_submit` looks at the lock
-- of the lot and side and at the fills that are outstanding, `_handle_intent` leads an intent through
-- the gate, and `hydrate` builds the state up again from the database. The
-- dashboard is another process; its commands reach the engine through two files.
--
-- Where the parts are modelled (paths of the sources are below short_trading_bot/):
--   Base             tests, lists, tables with a unique key, dictionaries, and signed integers
--   Domain/Enums     domain/enums.py: the enumerations and their tables
--   Domain/Signal    domain/signal.py: `Intent`
--   Domain/Position  domain/position.py: `Lot` is `PositionLot`, with `transition_to`, `evaluate`,
--                    `on_bar`, `apply_fill` and the rest under their own names. Its children hold
--                    the proofs: Machine on the states, Accounting on shares and money, Evaluation
--                    and Bars on the other two operations.
--   Execution/Types, Execution/Store
--                    execution/types.py and persistence/models.py: requests, fills, reports, rows
--   Execution/Session, Execution/OrderManager
--                    execution/order_manager.py: `submit`, `cancel`, `handle_fill`, `project` for
--                    `_apply_to_position`, `expire_stale`, `orphan_pending_to_unknown`; proofs in
--                    Fills, Submission, Projection and Expiry
--   Execution/FillPoller
--                    execution/fill_poller.py: `resolve`, `poll_one`, `poll_locked`; proofs in
--                    Resolution, Delta and Polls
--   Execution/UnknownResolver
--                    execution/unknown_resolver.py: `load_unknowns`, the dictionaries, `poll_once`;
--                    proofs in Offers, Free, Keys, Groups, Changes and
--                    Adoption
--   Execution/Paper  execution/broker/paper.py: State, Fills for the booking of a fill, Desk for
--                    `submit_order`, `cancel_order`, `on_market_price`; proofs in Chunks, Ledger and
--                    Funds
--   Execution/Routing
--                    execution/broker/routing.py: the two legs, `overseas_call` and the merged
--                    reads; proofs in Reads
--   Execution/TickSize, Execution/PollGate
--                    execution/tick_size.py and execution/poll_gate.py
--   Risk/Control, Risk/Manager
--                    risk/control.py, limits.py, manager.py and kill_switch.py; proofs in
--                    Manager/Gate
--   Risk/ControlFile risk/control_file.py, `set_control` of api/routes/control.py and
--                    `_control_loop` and the end of `serve` of app/cli.py; proofs in Delivery and
--                    KillSwitch
--   Risk/RateLimit   risk/rate_limit.py: the token bucket; proofs in Budget
--   Execution/Fx     execution/fx.py: rates and sums in won
--   Execution/Reconciler
--                    execution/reconciler.py: the comparison with the broker; proof in Sync
--   Market/BarBuilder
--                    market/bar_builder.py: ticks into bars; proof in Conservation
--   Api/Throttle     api/throttle.py: the login throttle; proof in Window
--   App/Service      app/service.py, by what the methods do:
--     State          the state `World`, `is_flat`, `_tracked_lots`; proof in Flat
--     Restore        `_lot_from_row`, `_sync_runtime`; proof in RoundTrip
--     Books          cash, equity, `_risk_snapshot`, `_cap_entry_qty`; proof in Caps
--     Handler        `_on_fill`, `_recover_meta`, `_adopt_reopened`; proofs in Steps, Links and
--                    Agreement
--     Polling        `_refresh_fills`, with the poller in the service; proof in Agreement
--     Orders         `_submit`, `_cancel_pending`, `_cancel_open_buy`, `_release_if_terminal`; proofs
--                    in Locks, Barrier, Agreement and Upkeep
--     Startup        `hydrate`, `expire_stale_orders`, `_restore_risk_state`, `_relock_order`; proofs
--                    in Replay and Locks
--     Intents        `_handle_intent`, `_flat_all`, and the kill switch in `process`
--     Watchlist      `add_template`, `_remove_template`, `_spawn`, `_expire_scan_lot`,
--                    `tracked_tickers`, and the choice of the lot for a bar in `process`; proofs in
--                    Uniqueness and Subscriptions
--   Examples         the theorems at concrete inputs, and runs of the code
--
-- How the state is carried. An operation takes the state and returns it: the lot, the rows of the
-- database as lists, the broker's tables, or the two files with the engine's switch. A method that
-- raises returns the state with the reason. A broker is a function from a request to the fills that
-- it pushes during the call and to the way the call ends, so every interleaving that the source
-- allows at that point is an argument. The second session of the resolver takes its own database,
-- which may have changed while the broker was asked. What two processes do is a list of steps.
--
-- The state of the service. `World` has a field for each field of `TradingService` that its
-- operations change: `lots` is `_lots_by_id`, `slots` is `_lots`, `pending` is the locks by lot and
-- side, `metas` is `_co_map`, `seen` is the poller's `_seen`, and `store` is the database. A lot that
-- two dictionaries share is one entry of `lots`, which the others name by its id. What the service
-- asks for is `Outside`: the answer of the broker to a request is a function of the request, and the
-- executions that it reports and the ids of new orders are functions of the state at the time, so
-- they may differ from one call to the next. An exception is the value
-- `raised` beside the state that it leaves. Other tasks of the event loop do not run between the
-- awaits of one operation.
--
-- Numbers. Prices, quantities and amounts are natural numbers in a fixed smallest unit, profits and
-- cash are integers. Divisions of `Decimal` that are not exact are parameters, and a theorem that
-- needs more of them says so. The unit is that of the columns, Numeric(24, 8): quantities, averages
-- and profits are taken to be whole units already, where the program leaves the rounding to the
-- database. A stop, a peak or an original quantity that is written to its row goes through `column`,
-- what the database keeps of an amount. Times are seconds of the epoch. Texts that are only compared are
-- numbers. Whether a query of SQLAlchemy writes pending rows first (`autoflush`) is a parameter.
-- No function runs on fuel: loops are recursion over the list that the source loops over, or over
-- the number of pieces.
--
-- Not modelled: the rest of app/service.py (the order of the parts in `process`, the status
-- report), the KIS adapters and feeds (network), the indicators, strategies and backtests (floating
-- point), the dashboard's other routes, configuration and the frontend. Logging and notifications are
-- left out everywhere.
pub mod Api
pub mod App
pub mod Base
pub mod Domain
pub mod Examples
pub mod Execution
pub mod Market
pub mod Risk
