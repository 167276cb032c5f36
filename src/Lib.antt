-- ===== src/Lib.antt =====
-- The perception pipeline: cameras, recordings and GPU stages that hand frames to each other through
-- rings, pools and mailboxes. Paths are from the repository's root.
--
-- A camera's transport fills the pinned slots of a HostIngressRing (pipeline/src/host_ingress_ring.cpp);
-- the upload copies them to a DeviceRingBuffer (pipeline/src/device_ring_buffer.cpp), whose consumers take
-- read leases (pipeline/src/ring_lease.cpp). A copy of each frame goes to a HostFrameRing
-- (pipeline/src/host_frame_ring.cpp) for the CPU's readers, and results come back from the GPU
-- through a DownloadStage (pipeline/src/download_stage.cpp) into the buffers of a HostFramePool
-- (pipeline/src/host_frame_pool.cpp); a LatestFrame (pipeline/src/latest_frame.cpp) passes the newest
-- of them to a viewer. Two cameras' frames are paired offline by pair_by_timestamp
-- (capture/include/frame_pairing.hpp) and live by StereoPairer (stereo/src/stereo_pairer.cpp). Results are
-- recorded as ROS messages (recording/src/ros_messages.cpp) in CDR (recording/include/cdr_writer.hpp,
-- recording/include/cdr_reader.hpp) by McapRecorder (recording/src/mcap_recorder.cpp), and images are
-- replayed by ImageReplaySource (recording/src/image_replay_source.cpp); raw frames go to a recording of
-- their own (recording/src/recording_writer.cpp, recording/src/recording_reader.cpp). TopicGraph (app/src/topic_graph.cpp) names every buffer of a run.
--
-- Prelude: what the parts share: lists, sums and counts over lists, words of 32 and 64 bits, integers.
-- HostFrameRing: `Ring` is the class's Store and members. `publish` is the reservation, the
--   copy and the publication, in their two critical sections; `acquire_latest`, `release`, `stop` and
--   `add_consumer` carry their names. HostFrameRing/World runs them in any order.
-- LatestFrame: `post` and `take` of the mailbox; LatestFrame/Mailbox has what was posted and taken.
-- HostFramePool: `acquire`, `release` and the counters; HostFramePool/World runs them.
-- DownloadStage: `enqueue` and `stop` as whole calls, one round of the worker as `poll`, and `start`, over the
--   pool; DownloadStage/Sections has the locked sections of enqueue and stop and the CUDA calls between them as
--   steps of their own, for one producer.
-- FramePairing: the merge of two timestamp arrays and first_timestamp_regression. `merge` is the loop
--   on what is left of the arrays, and so needs no fuel.
-- DeviceRing: the producer's side, one function for each atomic access and each operation;
--   DeviceRing/Reads has the consumer's side, with both loops that search by timestamp. DeviceRing/Seqlock runs both interleaved, one atomic
--   access at a time, for one producer and any number of consumers below 2 ^ 32.
-- IngressRing: both fill modes. IngressRing/InFlight runs the external one.
-- StereoPairer: `push_stream`, `push` and `try_pop`. Both branches of the loop in try_pop return,
--   and so it is a test of the two heads. StereoPairer/Once runs pushes and pops.
-- Cdr: the reader; Cdr/Writer has the writer. `align_to` repeats its loop as often as the alignment,
--   which is enough for the padding; an exhausted count would show as a misplaced value.
--   Cdr/Agrees pairs a writer and a reader of the same part of a message, Cdr/Messages lists fields.
-- Ros: the messages, their encoders and decoders, with a double as its bit pattern. Ros/Replay has a
--   replayed image: `decode_image`, the opening on the first message and to_image_desc of
--   app/src/app_config.cpp; Ros/Replay/Slots has `on_message` and `acquire_slot`, whose loop runs over a
--   list of what it polls, of any length.
-- Recorder: McapRecorder: add_topic, start, both critical sections of push, the parts of run and close;
--   Recorder/Steps runs them with one pusher for each topic, and Recorder/Drain the rounds after close.
-- Recording: the files of a stream: `write_frame` and the reader's `read_index` and `read_frame`, whose
--   loops over the system's calls run over lists of its answers; Recording/Pairs is RecordingReader::pair,
--   and Recording/Staging the ring between push and the writer thread.
-- HeapFrameSink: the sink of capture/src/heap_frame_sink.cpp; HeapFrameSink/Runs runs it with a reader that
--   releases only what pop gave it.
-- RingPair: `step` of RingPairConsumer (pipeline/src/ring_pair_consumer.cpp), which pairs the leases of
--   two device rings, as `pair_step`; what the rings answer is an argument.
-- TopicGraph: the declarations and the resolves of host_tap, device_ring and download.
--
-- Machine integers keep their wrap-around. Retries take their bound, max_attempts, from the source.
-- Blocking waits are outcomes, and a critical section is one step. The memory orders of the atomics are not
-- modelled: an interleaving is sequentially consistent.
--
-- Parameters: CUDA's answers about events, the host clock, the addresses of allocated memory, the
-- factories of topics, the ids and statuses of the MCAP library and the answers of write, pwrite and pread.
-- Not modelled: CUDA kernels and calls, TensorRT, the cameras' SDK, OpenGL, the vendored MCAP library and
-- the player of its files, YAML configurations and manifests, statistics, floating-point
-- geometry and the programs that wire the parts, which have no state of their own or are not in the repository.
pub mod Prelude
pub mod HostFrameRing
pub mod LatestFrame
pub mod HostFramePool
pub mod DownloadStage
pub mod FramePairing
pub mod DeviceRing
pub mod StereoPairer
pub mod IngressRing
pub mod Cdr
pub mod TopicGraph
pub mod RingPair
pub mod Ros
pub mod Recorder
pub mod Recording
pub mod HeapFrameSink
