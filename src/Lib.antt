-- ===== src/Lib.antt =====
-- Verification of MERCURY, an electronic exchange with price-time priority (README.md).
--
-- The program. An exchange keeps one order book for each symbol and routes orders to it. The
-- matching engine takes an order and a book: it trades the order against the other side, best price
-- first and oldest first within a price, reports each fill to both parties through a callback, and
-- posts or cancels what is left. Four trading agents make orders from the middle price of a book, a
-- parser turns files of ITCH messages into orders, and a server ties the parts: each tick it lets a
-- market maker and a random trader act and submits what clients have sent through a lock-free
-- queue. The risk engine stands beside the exchange.
--
-- Files.
--     Prelude: tests, lists, machine words, integers and std::unordered_map (Prelude/Map), shared
--     by all.
--     Double: the doubles, as an interface with the laws of their order; Double/Whole is an
--     instance on which everything runs.
--     Types: src/orderbook/types.h, its enums, Order, ExecutionReport and the symbol bytes;
--     Types/Symbol is about the bytes of a symbol.
--     Levels: std::map<double, V> with the comparator of a side.
--     OrderBook: src/orderbook/order_book.h and order_book.cpp; PriceLevel and OrderBook with
--     add_limit_order, cancel_order, depth and quotes under the source's names. OrderBook/Valid is
--     the invariant, OrderBook/Sides sees a book from one side, OrderBook/Adding, and
--     OrderBook/Removing with OrderBook/Cancelling, treat the two operations, OrderBook/Depth the
--     view of the first levels.
--     PriceTime: the abstract book, two queues of orders, on which the rule of price-time priority
--     is stated.
--     MatchingEngine: src/matching/matching_engine.h and matching_engine.cpp. Sweep is the
--     specification of matching on a queue; Trading, Quantities and Reports say what a sweep does;
--     Filling, Loops, Rounds and Sides relate the loops to a sweep; Submitting is the specification
--     of a submission, and Finishing, Outcomes, FillOrKill and Crossing are about submit_order.
--     SpscQueue: src/utils/spsc_queue.h; Fifo relates a ring to the list of its items, Threads has
--     the accesses of producer and consumer as steps of one system, Threads/Seen is about what
--     their local variables say of the queue, and Threads/Interleaving about all their
--     interleavings.
--     RiskEngine: src/risk/risk_engine.h; State reads and writes a trader's state, Limits, and
--     Shares with Exposure, are about sequences of checks, fills and cancels.
--     Exchange: src/exchange/exchange.h and exchange.cpp, with submit_order, cancel_order and
--     modify_order under the source's names; Routing and Submitting are about the books and the
--     global index, Posting says what a submission leaves resting, ReducingQueue, Reducing and
--     Modifying treat the modification in place.
--     TradingAgent: src/traders/trading_agent.h; Inventory is about runs of fills, Ids about order
--     ids, Drawdown about the samples of the profit.
--     Traders: what the agents of src/traders share. Making is the contract of a tick's orders,
--     Windows treats the price windows, Positions what fills can do. MarketMaker (market_maker.h,
--     with Position, Withdrawing and Quotes), Momentum (momentum_trader.h), MeanReversion
--     (mean_reversion_trader.h) and Random (random_trader.h) have on_tick and on_fill under the
--     source's names. Momentum/Signals treats the prices of a run of ticks, Momentum/Trends their
--     trend, Momentum/Following the orders.
--     ItchParser: src/replay/itch_parser.h; Bytes is about the byte swaps, Framing about the loop,
--     Messages and Files about whole files.
--     TcpServer: src/networking/tcp_server.h, a client's connection; Requests is about the text of
--     a request, Popping and Pushing about the push loop, Stopping about a stop during it,
--     Numbering, Delivering and Connections about whole connections.
--     MercuryServer: src/networking/mercury_server.cpp, a tick of the main loop; Submissions and
--     Ids are about runs of submissions and the ids that an exchange knows, Issuing about the
--     orders of one agent among the others, Ticks and Starting about the ticks.
--     ObjectPool: src/utils/object_pool.h; Ownership is about who holds its pointers.
--     Tests: concrete runs, and an instance of every result.
--
-- Correspondence. Prices and money are values of a type F with the interface Double. A decimal
-- literal is the quotient of two integers. Objects from the pool are a parameter of the code that
-- acquires them, and keep there the fields that it does not set. Unsigned integers are natural
-- numbers whose sums and differences are taken modulo 2^32 or 2^64, as in the source. A signed
-- delta of a level's total is its 64-bit pattern. The book holds orders by value: the source shares
-- one object between the book and the submitter, and what the submitter sees of an order through
-- its own pointer after the call is not modelled. The engine's callback is the list of reports
-- sent. The clock is a function of the number of its calls. What a socket receives, how the
-- server's flag reads, and what the consumer of the queue does between two accesses of the
-- producer, are inputs, in the order in which they happen; the reading of a double from a stream is
-- a parameter. The market maker's pointer to the exchange is an exchange passed in and given back.
--
-- Bounds and fuel. The two matching loops run on fuel, given by level_fuel as one more than levels
-- and orders together; each round removes an order or a level or ends the loop, so that it is
-- enough. An empty result stands for a loop that is out of fuel. The loop of the ITCH parser has
-- one more than the bytes of the file, of which each message takes three or more.
--
-- Assumptions. The laws of the order of doubles exclude NaN, and count the two zeroes as one value.
-- Quantities are below 2^32, and an order is not filled beyond its quantity. The int64_t positions
-- of the risk engine do not overflow, which would be undefined. The accesses of the two threads of
-- a queue happen in one order.
--
-- Not modelled: the layout and padding of Order, output to the terminal, sockets, and files beyond
-- their bytes; of the exchange, the listing of symbols and the printing of statistics.
pub mod Prelude
pub mod Double
pub mod Types
pub mod Levels
pub mod PriceTime
pub mod OrderBook
pub mod MatchingEngine
pub mod SpscQueue
pub mod TradingAgent
pub mod Traders
pub mod TcpServer
pub mod ItchParser
pub mod RiskEngine
pub mod Exchange
pub mod MercuryServer
pub mod ObjectPool
mod Tests
