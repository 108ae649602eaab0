-- ===== src/Lib.antt =====
-- Jellybean, a C++ inference server runtime: its wire protocol, its configuration readers, its model
-- repository, executors and runtime, its Torch backend, the start and the sessions of its server, its
-- reactor, continuation pool and timer wheel, its messages, its bump and slab allocators, its queues,
-- deque and seqlock, and its metrics.
--
-- Parts and files. Paths are from the root of the repository.
-- * Proto models include/jellybean/proto and src/proto/codec.cpp. Proto/Wire has the constants, the
--   header and its bytes, align_up and layout_for_payload; Proto/Crc has the checksum, by the table
--   (crc32c_software) and by the SSE 4.2 instructions (crc32c); Proto/Codec has parse_frame and
--   encode_frame. A span is the list of its bytes; parse_frame keeps a record of the parts that it
--   reads, and encode_frame gives the buffer that it leaves. Proto/Codec/Protocol has the frame that
--   the protocol describes.
-- * Memory/Arena models include/jellybean/memory/arena.hpp and src/memory/arena.cpp: allocate,
--   allocate_slow, allocate_block, reset, bytes_allocated, the destructor and the moves. Addresses
--   are numbers; the linked list of blocks is cut at head_ into the blocks before and behind it.
-- * Memory/Slab models include/jellybean/memory/slab.hpp: allocate, allocate_chunk and deallocate over
--   slots that are an object or a link of the free list.
-- * Scheduler/Deque models include/jellybean/scheduler/work_stealing_deque.hpp, an operation at a
--   time. Scheduler/Deque/Threads has push, pop and steal cut into their accesses to what the threads
--   share, as a step relation of the owner and any number of stealers.
-- * Actor/Message models Message of include/jellybean/actor/actor.hpp and src/actor/actor.cpp: its
--   constructors, assignments, set and destroy over a heap. Actor/Message/Program runs programs on
--   several messages.
-- * Concurrency/Spsc models include/jellybean/concurrency/spsc_queue.hpp, an operation at a time;
--   Concurrency/Fifo is the bounded queue that it stands for.
-- * Concurrency/Mpmc models include/jellybean/concurrency/mpmc_queue.hpp: the rounds of the loops of
--   emplace and try_pop, with the answers of the weak CAS as an argument.
-- * Concurrency/Seqlock models include/jellybean/concurrency/seqlock.hpp: its writers and a reader as a
--   step relation, under sequential consistency.
-- * Reactor/TimerWheel models include/jellybean/reactor/timer_wheel.hpp and
--   src/reactor/timer_wheel.cpp. advance returns the timers that fire, in order.
-- * Reactor/Pool models ContinuationPool of src/reactor/continuation_pool.cpp: post, worker_loop and the
--   destructor, with the condition variable, as a step relation of workers and posting threads.
-- * Reactor/Loop models Reactor of src/reactor/reactor.cpp: a round of run takes what other threads
--   have scheduled, comes to all coroutines that wait, advances Reactor/TimerWheel and polls.
-- * Net/Socket models the read and write awaiters of src/net/async_socket.cpp, once they are resumed.
--   Server/Session models session of src/server/main.cpp over them: it reads requests, passes them to
--   infer_async, and writes the replies. Server/Startup models main of the same file up to the
--   sockets: it reads the settings, calls scan_and_load of Model/Repository, and registers the models
--   that Model/Registry lists as ready with Inference/Runtime.
-- * Telemetry/Report models get_all_metrics of src/telemetry/metrics.cpp and serialize_metrics_json of
--   src/telemetry/metrics_export.cpp; Telemetry/Report/Json is the grammar that it is held against.
--   Telemetry/Server models MetricsServer of the same file: start, stop, and the loop that writes.
-- * Telemetry/Histogram models LatencyHistogram of include/jellybean/telemetry/metrics.hpp and
--   src/telemetry/metrics.cpp: bucket_for, record (here record_latency) and percentile.
-- * Ini models the reading of `key = value` files that three parts of the program write out each for
--   itself: RuntimeConfig::from_file of src/inference/runtime.cpp (Inference/Settings),
--   load_extended_config of src/server/main.cpp (Server/Settings) and ModelConfig::from_dir of
--   src/model/model_config.cpp (Model/Config), which then chooses a version directory.
-- * Model/Registry models src/model/model_registry.cpp and include/jellybean/model/model_metadata.hpp
--   over a store of the objects behind its pointers. Model/Repository models load_model and
--   scan_and_load of src/model/model_repository.cpp, which read a configuration by from_dir, replace
--   the registry's entry and ask a Torch backend to load the file.
-- * Model/Executor models src/model/model_executor.cpp: the rounds of infer_async and worker_loop.
--   Model/Executor/System puts clients and workers together as a step relation.
-- * Inference/Runtime models src/inference/runtime.cpp, which starts an executor for each model and
--   routes requests to them. Inference/Torch models src/inference/torch_backend.cpp: load and unload,
--   and in Inference/Torch/Infer infer and infer_batch, which executors call for a batch.
-- * Base has the shared names, lists and words, and the laws of masks and of exclusive or.
-- * Checks runs the definitions at concrete inputs.
--
-- Numbers. uint32_t, uint64_t and size_t are natural numbers, and sums and differences wrap where the
-- source's would; size_t has 64 bits. The machine is little-endian. Loops recur on lists or on the
-- number of rounds left, which the definitions compute from the source's own bounds, so none runs
-- out of fuel. The loops of Concurrency/Mpmc recur on the answers of the CAS, and their result is none
-- while they go on. A session runs for a number of rounds, which a client's requests and one more are
-- enough for.
--
-- Parameters. The answers of malloc are arguments of the allocator. The instructions _mm_crc32_u64
-- and _mm_crc32_u8 are arguments of Target.sse42, with what Intel's manual says of them as a named
-- hypothesis. The product in floating point of percentile is an argument. What std::filesystem
-- answers is a value, ModelDir or RepoEntry, and the text of a file is a list of bytes. LibTorch is
-- the records TorchLoader and TorchOps; a call that throws is a result of these. The interface
-- IInferenceBackend is the record Backend, with the law that infer_batch answers every request.
-- Clocks, and whether a model is ready, are arguments. What recv and send do is the record Kernel,
-- with the law of recv's manual page; a peer whose bytes are there whenever they are asked for, and
-- that closes its side behind them, is the interface Peer, which also keeps what send was given. What
-- coroutines, callbacks and poll do for the reactor is the record Backend of Reactor/Loop: the calls
-- that they make. The answers of socket, bind, listen and write are arguments. Failed assertions and refused
-- storage are the result none.
--
-- Not modelled. Interleavings inside an operation of the single-producer and the multi-producer queue,
-- callbacks that change the wheel while it runs, the condition variable of an executor's workers, the
-- wrap of counters of 64 bits in the deque, the multi-producer queue and the seqlock, and the weaker
-- memory orders, for lack of a memory model. Calls of schedule by other threads inside a round of the
-- reactor. Mailbox and ActorRegistry, which pass calls on to a queue and a map. The coroutine frames of
-- include/jellybean/scheduler/fiber.hpp, epoll and io_uring, socket set-up, the accept loops, huge
-- pages, CPU pinning and logging, which are calls of the system or of the compiler.
pub mod Base
pub mod Ini
pub mod Inference
pub mod Model
pub mod Net
pub mod Server
pub mod Proto
pub mod Memory
pub mod Actor
pub mod Concurrency
pub mod Scheduler
pub mod Reactor
pub mod Telemetry
pub mod Checks
