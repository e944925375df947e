-- ===== src/Lib.antt =====
-- The worker connects accounts to Twitch's IRC servers, collects the chat messages of their channels,
-- hands them to bots and stores them in ClickHouse. This library models the parts that keep state.
--
-- IRC (irc/). An account is an agent, IRCClient, with several connections, IRCSession. Each channel of the
-- account is served by one session, which IRCChannelList records; a selector of IRCSelectorPool watches
-- the sockets of a session.
-- Irc.Channels: irc/IRCChannelList.h and .cpp. `Channel`, `ChannelMap`, and one function per method, from
--   `load` (load) to `reserve_channels_for_session` (reserveChannelsForSession). A session pointer is a
--   number, the null pointer `none`. Reserve is about how channels are shared out, Attach about the loss of a
--   session.
-- Irc.Session: irc/IRCSession.h and .cpp, irc/IRCMessage.h. What libircclient answers is the parameter
--   `Net`; what a session does to the outside is a list of `Effect`s. Outgoing has the commands (sendQuit
--   to sendUserMode), Dispatch the table of
--   functions of irc/IRCSessionCallback.cpp that libircclient calls, Callbacks what is done about what the
--   server sends (`on_event`). A callback that throws or is undefined is `none`.
-- Irc.Statistic: the counters of irc/IRCStatistic.h.
-- Irc.Client: irc/IRCClient.h and .cpp. State has the client, the sessions behind their pointers and the
--   round robin; Handlers the agent's handlers and the listener's callbacks; Commands the client's
--   commands; Events puts messages and callbacks together as one machine, `step`. RoundRobin, Delivery,
--   Reload and Live are about the choice of a session, the way of a message, a reload, and the session
--   pointers in the channel list.
-- Irc.Controller: irc/IRCController.cpp, the clients of all accounts. Requests has the handlers for accounts,
--   Channels those for commands and channels, over what the JSON library makes of a request. Pointers,
--   Sound and Runs are about the pointers to clients.
-- Irc.SelectorPool: irc/IRCSelectorPool.cpp and the lists of sessions of irc/IRCSelector.cpp. Places says
--   in which selectors a session stands; Loop is a selector's thread, interleaved with those that add and
--   remove sessions, with InSync about the copy it reads and Removed about a session that is gone.
--
-- DbController.antt: DBController.h and .cpp, what is made of the rows of each query; BotRows has the bots'
-- configurations, Queries how a reply comes about.
--
-- MessageProcessor.antt: MessageProcessor.h and .cpp, from irc/IRCMessage.h to ChatMessage.h. The language
-- detector is a parameter.
--
-- HttpController.antt: HttpController.cpp and HttpControllerEvents.h, which event a request becomes; Paths has
-- the path of each event.
--
-- Http.antt: http/client and http/server. Client is HTTPClientSession and HTTPClient::exec, with Exchange about the
-- order of its operations; Server is HTTPServerSession, with Turns about requests and responses; Listener is
-- HTTPListener; Auth is what HTTPServer does with a request before HttpController.cpp gets it. An operation of Boost is
-- started in one step and completed in a later one, by a completion that may bring any error.
--
-- Storage.antt: Storage.h and Storage.cpp, the batches on their way to ClickHouse. Loss and Count are about
-- which messages reach a block or still wait. What a message consists of is a parameter.
--
-- Stats.antt: StatsCollector.h and .cpp, and the counters of db/ch/CHConnection.h: what the agents report,
-- added up until a request reads it. Accounts has the request for accounts; Channels and Sessions are about
-- what is kept of a channel and of a session, where Traffic has sequences of messages and requests and
-- Returns is about when they are taken to the end; the overflow of a channel's counter is `none`. Inserts
-- is about the rows that the ClickHouse connections count. A `Body` is what the JSON library makes of a request.
--
-- Bots.antt: bot/BotsEnvironment.h and .cpp, bot/BotEngine.h and .cpp: bots by their ids, added, reloaded
-- and removed by requests, and how a chat message reaches the handlers of a bot. Deliveries
-- and Started are about who gets it. Command has bot/handlers/BotMessageEventHandlerCommand.cpp, with
-- `absl::StartsWith` as a parameter; Answers follows a line of IRC to the answer, Lines compares the answers
-- with what the configurations ask for. What a Lua script does is a parameter.
--
-- Buffer.antt: common/BufferStatic.h, a ring buffer in a fixed array. Fifo is its specification, a bounded
-- queue; Holds relates the two; Append, Get and Refine compare each operation with it, Run sequences of
-- calls; Linear and Normilize are about the rest. A copy that is out of range or between
-- overlapping ranges is `none`.
--
-- Db.antt: db/DBConnectionPool.h and .cpp, db/DBConnectionLock.h. The threads' critical sections are the steps of
-- a relation, `Step`; Owners is about who holds a connection. Pg is db/pg/PGConnection.h and .cpp, over what libpq answers:
-- Verdicts and Requests are about the results of a query, Attempts about the constructor, Retries about ping. Ch is db/ch.
--
-- Uri.antt: common/URI.h and common/URI.cpp, with the text functions of common/Utils.h and .cpp. Chars has
-- characters and numbers, Codec the percent encoding, Segments the path, Parse the parsers, constructors
-- and setters, Print what is printed, Resolve references against a base. A `SyntaxException` is an error value, an
-- iterator the text it has still to read. Their child modules are about reading back what was
-- written, the dot segments, and the user information.
--
-- Notifier.antt: HttpNotifier.h and .cpp, the messages to Slack; Sending is about the requests that are made of them.
--
-- RequestFactory.antt: http/client/HTTPRequestFactory.h and HTTPRequest.h, the requests made for a URI.
-- Exceptions.antt: the texts of common/Exception.cpp.
--
-- Timer.antt and ThreadPool.antt: common/Timer.cpp, one pass of the loop over the queue, and
-- common/ThreadPool.h and .cpp as a step relation.
--
-- Base has what the parts share: Boolean tests, lists over the native numbers, 32-bit words, byte arrays,
-- faults, text and maps. Tests runs the code at concrete states.
--
-- `unsigned int` wraps at 2^32 and `size_t` at 2^64. A fault of the program (a null or dangling pointer, an
-- index out of range, a division by zero) is the result `none`. The loop that looks for a connected session
-- runs as many rounds as there are sessions, as in the code. The only fuel is that of `decimal_on`, one for each
-- digit: five are enough for a port, which is below 2^16, and ten for an `int`. The timer's pass counts rounds: one for
-- each entry and one more are enough. The loops of a PostgreSQL connection run on fuel, one for each round: the
-- retries and one more are enough for the constructor, and for a ping whose last reset is refused; `none` stands
-- for a loop that is still running.
--
-- Handlers are atomic: messages of an agent are handled one at a time, methods under a mutex are one step,
-- and the callbacks that libircclient makes on the selector's thread are taken as steps between them.
--
-- Not modelled: logging, sockets, the client libraries of HTTP and the data bases, the SQL, threads and SSL contexts, and the Lua
-- interpreter, which only call the outside; the start-up in Controller.cpp and main.cpp.
pub mod Base
pub mod Bots
pub mod Buffer
pub mod Db
pub mod DbController
pub mod Exceptions
pub mod Http
pub mod HttpController
pub mod Irc
pub mod MessageProcessor
pub mod Notifier
pub mod RequestFactory
pub mod Storage
pub mod ThreadPool
pub mod Timer
pub mod Uri
pub mod Stats
mod Tests
