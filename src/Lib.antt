-- ===== src/Lib.antt =====
-- quanquant: a futures trading journal, modelled from src/quanquant: its order subsystem, the agent on
-- the user's computer, the authorization of agents, and the bars of its charts.
--
-- A user's order passes the risk guard, which reserves quota, claims a confirmation token and creates
-- the order row in one transaction; the broker's answer acknowledges the order and settles the
-- reservation. What the broker reports later is a row of the inbox, which the worker turns into a
-- deal with its position, or into a new status of the order. In agent mode every command is a row of
-- the ledger, which an answer, a query or a report ends. The agent keeps a durable buffer of what it
-- has not delivered and of the commands that it has executed, so that a command that arrives again is
-- answered and not executed again. An agent is authorized by a device code that its user approves in the
-- browser. The charts group candles of a minute into the buckets of the trading sessions.
--
--   Broker/Types.antt      broker/types.py: the closed sets of words, the request of an order
--   Broker/Orders.antt     broker/repository.py lines 44 to 323: order rows, statuses, fills
--   Broker/Quota.antt      broker/repository.py lines 865 to 973: reservations
--   Broker/Positions.antt  broker/position_tracker.py, and the position rows of the repository
--   Broker/Tokens.antt     broker/repository.py lines 781 to 820: confirmation tokens
--   Broker/Cooldowns.antt  broker/repository.py lines 983 to 1076: cooling-off periods
--   Broker/Risk.antt       broker/risk.py: the kill switch and the checks of placements and changes
--   Broker/Inbox.antt      broker/repository.py lines 326 to 554: rows of reports, account bindings
--   Broker/AgentCommands.antt  broker/agent_commands.py: the ledger of commands to the agent
--   Broker/Deals.antt      broker/repository.py lines 622 to 676: the table of deals
--   Broker/InboxWorker.antt  broker/inbox_worker.py: the worker, a row and a batch at a time
--   Broker/Watchdog.antt   broker/watchdog.py lines 167 to 340: passes over what is unknown
--   Agent/Buffer.antt      agent/buffer.py: the outbox, the executed commands, the sentinel
--   Agent/Runner.antt      agent/runner.py: commands, confirmations, the latch of a failure
--   Auth/AgentTokens.antt  auth/agent_tokens.py: tokens and their rotation
--   Auth/DeviceFlow.antt   auth/device_flow.py: device codes, polls, the throttle, the claim
--   Candles/Bucketing.antt candles/bucketing.py: sessions and buckets
--   Candles/Aggregate.antt candles/aggregate.py lines 1 to 73: bars of a longer timeframe
--   Candles/Builder.antt   candles/builder.py: candles of a minute from snapshots
--   Journal/Pnl.antt       journal/pnl.py: profit and loss
--   Base.antt              integers over the native numbers, Boolean tests, tables as lists
--
-- A table is a list of rows in the order of their ids. A query is a scan (`find?`, `select`), an
-- update statement is `update_where`, and its row count is `count_where`. A function of the source that
-- runs in one transaction takes the tables and returns the new ones; where the source raises, the
-- outcome is a value, and the caller's rollback is that the old tables are kept. A unique key that two
-- transactions race for is not modelled: the retry after an IntegrityError answers what the query at the
-- start of the same function answers. The interleavings inside a function that the program guards
-- against, an answer and a resolver on one command and two polls of one device code, are modelled: each
-- acts on a row that it read earlier.
--
-- Amounts are whole numbers of a unit of the decimal arithmetic. What rounds to the 28 digits of the
-- source's context is a parameter: the division of amounts (`Decimals.quot`), and in the position
-- ledger the sums and differences of fees (`Decimals.plus` and `Decimals.minus`), which may have
-- such a quotient in them; the fees that a split fill leaves are thus whatever that arithmetic makes
-- of them. All other sums and products are exact: one that exceeds 28 digits, as a profit from an
-- average price that is no finite quotient may, is not modelled. The id of a new position is above
-- all ids in the table. Times are counts of milliseconds, in the agent's buffer of seconds, and the
-- clock is an argument. The signer of confirmation texts (`loads`), the mappers of the broker's
-- payloads, the decoding of a payload, the text of a date and the hashes of the authorization are
-- parameters; texts that are drawn at random are arguments, as is what the agent's child replies,
-- whether its storage takes a write, and whether the end of a session or an exception cuts a call of
-- the child off; the checks take any function of the time for the trading day. Of an audit row the
-- hash and the text of the detail are left out. There is no fuel: every loop is over a list.
--
-- Not modelled: the web pages, the agent's windows, processes and sockets, the broker's SDK, the
-- calendar and the storage of candles, the aggregation of days, alerts and statistics, and all that only
-- reads for display.
pub mod Base
pub mod Broker
pub mod Journal
pub mod Agent
pub mod Auth
pub mod Candles
