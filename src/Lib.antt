-- ===== src/Lib.antt =====
-- Franklink is a messaging agent: it talks to its users over iMessage, matches them with one another
-- and opens group chats for those who agree. This library models the parts of it that decide what
-- is sent, what is stored and in which order.
--
-- A message arrives as an event at `app/integrations/kafka_pipeline.py`, which commits its offset
-- once it is handled and sends what fails to a retry topic or to the dead letters; duplicates of an
-- event are refused with `app/utils/redis_client.py`. `app/services/message_coalescer.py` waits for
-- the rest of a burst and hands on one combined message. The networking flow of a user stands in
-- `app/agents/state/atomic_state.py`; the handshake of
-- `app/agents/execution/networking/utils/handshake_manager.py` moves this state together with the
-- request of `app/database/client/connection_requests.py`, for which two people must agree before a
-- group chat is made; a group of several people is made when enough of them have agreed. What a user
-- needs and offers is kept by `app/utils/demand_value_history.py`. Slow operations go through
-- `app/agents/queue/async_processor.py`. An answer is
-- cut by `app/utils/message_chunker.py`, and a phone number is checked by
-- `app/utils/phone_validator.py` before anything is sent to it.
--
-- Files and code. A definition has the name of the Python function or class, without a leading
-- underscore; a part of a long function has a name of its own.
--   Prelude, Text, Dict: native numbers and lists, `str` as code points, `dict` in insertion order.
--   Coalescer: `MessageCoalescer` and `CancellationToken`. Conversation has
--     the events of a conversation, Conversations the dict of them all; Carried, InOrder and Prompt
--     are about its messages, Combine about the combined text.
--   OperationQueue: `QueuedOperation` and `AsyncOperationProcessor`.
--   Networking.Status: `ConnectionRequestStatus` of `app/database/models.py` and its transitions.
--   Networking.Flow, Stored, Manager: `NetworkingFlowState`, `AtomicNetworkingState` with `to_dict` and
--     `from_dict`, and `AtomicStateManager` with its cache.
--   Networking.Flows, Requests: the methods of `ConnectionRequestsClientMixin` for the two tables.
--   Networking.Queries: the queries of that class which find requests, `check_existing_connection` too.
--   Networking.Matches, Handshake: the single-match steps of `HandshakeManager`; Matches has their
--     effect on the flow state.
--   Networking.Multi: its multi-match methods, with the SQL function `check_multi_match_ready_v1` of
--     `migrations/connection_requests_multi_match.sql`; Accept, Create and Join have one method each;
--     Provision has the methods of `app/groupchat/features/provisioning.py` that they call.
--   Kafka: the commits of one partition by `KafkaInboundConsumer`, in Tracker as steps under the
--     tracker's lock, in Serial without keyed concurrency; Failure has retries and dead letters, Event
--     the keys of an event.
--   Redis: `RedisClient` and the decorators `with_idempotency` and `with_rate_limit`; Server is the
--     interface of the server, Run a sequence of calls, Memory a server for the examples.
--   History: the functions of `demand_value_history.py`; Edits has `apply_value_history_edits`.
--   Chunker: `chunk_message` and its helpers. Phone: the functions of the validator.
--   Retry: the decorator `with_retry` of `app/database/client/retry.py`.
--   Results stand in the child modules that are named for what they show, examples in Tests.
--
-- State and effects. An object that is changed is a record that is passed on; a method returns it
-- beside its result. An exception is a constructor of `Networking.Fault`. A table is the interface
-- `Networking.Table`: what PostgREST documents of a filtered select, update and insert, each of which may
-- also fail and then changes nothing; `list_table` fills it. What other workers write between a
-- read and a write is a function from store to store. A clock reading is a number that the caller
-- gives. The coalescer and the queue take one step for each event of the event loop: code between two
-- `await`s, or under one lock, is not interrupted.
--
-- Bounds. Python's integers have no bound, and all numbers here are naturals; where the source
-- subtracts, the order of the operands is kept so that the result is not below 0, or the test for it
-- is written out. The loop of `chunk_message` runs on fuel, one unit for each code point and one more:
-- each turn takes at least one code point away, so that the fuel suffices for a positive max_length,
-- as the results about chunks say. The search for the end of a block of completed offsets takes
-- their number as fuel, and the journey of a failing event one unit for each
-- attempt that is left; the results of Kafka say that both are enough. No other definition needs
-- fuel.
--
-- Parameters. Which texts `uuid.UUID` accepts, which code points `\d` matches, the types of a match
-- score, a payload and a result, and the function that is retried are parameters. What a handler of
-- the queue answers, and how a task of the coalescer ends, are arguments of the steps. The jitter of
-- the delays between retries is left out. The digest of an event, the Redis server with its documented
-- laws, `json.dumps` and `json.loads`, `str` and `int` of a number, the order of the database's texts,
-- the look-up of a user, and what `GroupChatService` calls (the messaging service, a language model and
-- the tables of group chats) are parameters too.
--
-- Not modelled: prompts, language models, embeddings and the graph store, the clients of other
-- services, the web application, logs, and the workers and tools not named above; of the modelled
-- files the lists of purposes, of connections and of the requests of a chat, the shutdown of the
-- coalescer, the chat of two people, an index of an edit whose digits `int` refuses, the commits of
-- other consumers of the group, and the locks of the keys, the settings of the connection and the
-- producer of the Kafka pipeline.
pub mod Prelude
pub mod Text
pub mod Dict
pub mod Chunker
pub mod Networking
pub mod Coalescer
pub mod Phone
pub mod OperationQueue
pub mod Retry
pub mod Kafka
pub mod Redis
pub mod History
