-- ===== src/Lib.antt =====
-- The validating peer of the repository: its PBFT consensus and its ledger state.
--
-- Parts and files
--   Prelude/            lists, association lists, equality tests and 64-bit arithmetic that the models share.
--   Pbft/Messages.antt  the messages of consensus/obcpbft/messages.pb.go that the core exchanges.
--   Pbft/State.antt     pbftCore, msgCert and newPbftCore of consensus/obcpbft/pbft-core.go, with the
--                       timers and the parameters of the core.
--   Pbft/Quorum.antt    primary, inW, inWV, the quorum sizes, prePrepared, prepared and committed;
--                       below it the watermark test as an interval and the intersection of quorums.
--   Pbft/Receive.antt   recvRequest, recvPrePrepare, recvPrepare, recvCommit and executeOutstanding;
--                       below it what execution leaves alone, the errors, and the invariant of a replica.
--   Pbft/Agreement      a network of replicas in one view, and agreement between them.
--
--   Pbft/Checkpoint.antt  checkpoints, moveWatermarks, the fetch of missing requests and recvMsgSync;
--                       what these call of consensus/obcpbft/viewchange.go is the record ViewChanges.
--   Pbft/Leave.antt     what a replica sends when it leaves its view: the P and Q sets of sendViewChange.
--   Pbft/ViewChange.antt  the handlers of consensus/obcpbft/viewchange.go, which fill that record, and
--                       the step of the view timer; below it the P set (Sets, Entries), the installation of
--                       a new view, and the fuel (Counts, Later, Ends, Fuel).
--   Pbft/Replica.antt   the entry points request and receive.
--   Pbft/NewView.antt   correctViewChange, selectInitialCheckpoint and assignSequenceNumbers of
--                       consensus/obcpbft/viewchange.go.
--   Pbft/Batch.antt     consensus/obcpbft/obc-batch.go over the core; below it the requests that wait.
--   Pbft/Executor.antt  consensus/obcpbft/obc-executor.go: the queue; below it the batches of a request
--                       (Run), the thread (Loop), the ends of a batch, the order of commits, and
--                       progress.
--   Ledger/Text.antt    Go's strings as bytes, and their sorted order.
--   Ledger/Delta.antt   core/ledger/statemgmt/state_delta.go; below it the merge of two deltas.
--   Ledger/State.antt   core/ledger/statemgmt/state/state.go over the interface HashableState of
--                       hashable_state.go; below it reads, rollback and previous values.
--
--   Ledger/Bytes.antt   bytes.Compare, and the composite keys of core/ledger/statemgmt/commons.go.
--   Ledger/BucketTree.antt  config.go and bucket_key.go of core/ledger/statemgmt/buckettree.
--   Ledger/BucketTree/Nodes.antt  data_key.go, data_node.go, bucket_hash.go and data_nodes_delta.go.
--   Ledger/BucketTree/BucketNodes.antt  bucket_node.go and bucket_tree_delta.go.
--   Ledger/BucketTree/Tree.antt   state_impl.go.
--   Ledger/BucketTree/Cache.antt  bucket_cache.go; below it the cache beside the database.
--
--   Ledger/Block.antt   protos/block.go.
--   Ledger/Blockchain.antt  core/ledger/blockchain.go; below it the chain of hashes.
--   Ledger/TxBatch.antt  core/ledger/ledger.go: batches of transactions over the state and the
--                       blockchain; below it the chain under commits (Integrity), the
--                       end of a batch (Ending), and its preview (Hashes, Preview).
--   Noops/Queue.antt    consensus/noops/txq.go; below it the queue as a first-in first-out queue.
--   Noops.antt          consensus/noops/noops.go over the stack; below it the order of execution.
--   Chaincode.antt      the messages of core/chaincode/handler.go; below it the table of the machine
--                       (Fsm), the handler and its maps (Handler), encryption (Security), goroutines
--                       (Jobs, Ranges), the callbacks, HandleMessage and the loop over the stream
--                       (Stream); then requests in a busy state (Busy, Answers, Reply), in a query
--                       (Context), and the pages of a range query (Iterators, Pages).
--
-- State and operations
--   A handler of the core is a function from the state to the state, with the error it returns where
--   it returns one. A call of the consumer (innerStack) and each broadcast is an entry of `outbox`,
--   the latest first; a nil dereference is an entry too, and an error result where the handler has
--   one. A replica handles its own broadcasts at once, as innerBroadcast does. A uint64 is a natural
--   number with its wrap written out (add64, sub64). A map is an association list without repeated
--   keys; a `range` over it is a walk of that list, and the theorems hold for every order of it.
--   Certificates are shared by pointer in the source; the model writes the changed one back.
--
--   The executor's thread and the chaincode handler's goroutines run in steps: a pass of the loop, or
--   the whole of a goroutine, is one function. A send on a channel that waits for its receiver is an
--   entry of a list (`senders`, `next_state`); what the executor calls of the stack is kept in `calls`,
--   the latest first.
--
-- Parameters
--   Env holds what is not the repository's own code or not read by these models: the encoding of
--   messages, the hash, base64, and the consumer's validate, sign and verify.
--
--   HashableState is the interface of the state implementations, with the encoding of a delta and the
--   database's batch; the theorems hold for every implementation of it.
--
--   Codec (Ledger/Block.antt) is protobuf on blocks and the hash, with the hypothesis RoundTrips where
--   a theorem needs it; Store (Ledger/BucketTree/Tree.antt) is what the bucket tree reads of the
--   database; BatchEnv (Pbft/Batch.antt) is protobuf on transactions; Stack (Noops.antt) is the
--   consenter's stack; ExecutorEnv (Pbft/Executor.antt) is the stack, the orderer and protobuf as the
--   executor calls them. HandlerEnv (Chaincode.antt) is what the handler uses of the ledger, the
--   chaincode support, the crypto layer and the stream; Fsm (Chaincode/Fsm.antt) is the library that
--   runs the machine, with the hypothesis IsDocumented for its documented behaviour. Whether
--   a write to the database succeeds is an argument of the ledger's commits.
--
-- Bounds and fuel
--   executeOutstanding is a loop with as much fuel as there are certificates and one more. Each pass
--   executes the next number. assignSequenceNumbers walks from h + 1 to h + L, with fuel L.
--   sendViewChange, which receives its own message, has fuel for one view change for each view change
--   and new view that is stored, and three more.
--   The pages of a range query are read with one more fuel than its iterator has keys.
--   newConfig has as much fuel as there are buckets and one more, which is enough for groups of at
--   least two; where the fuel is used up the result is none, as for a panic. The numbers of a
--   configuration are natural numbers without a bound.
--
-- Not modelled
--   Logging; the switch that makes a replica misbehave for tests; the release of the lock around the
--   consumer's execute, so that the steps of other threads come before or after a handler. The
--   network of Pbft/Agreement stays in one view. Of the ledger: the indexes of blocks, iterators and
--   snapshots, marshalled deltas, and the events for committed blocks. Of the bucket tree: the encoded
--   keys and nodes, and the load of the cache. Of the consenters: their start-up and configuration.
--   Of the chaincode handler: the start of an execution, the text of errors, and goroutines that run
--   between the steps of each other.
mod Prelude
pub mod Pbft
pub mod Ledger
pub mod Noops
pub mod Chaincode
