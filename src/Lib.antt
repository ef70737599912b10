-- ===== src/Lib.antt =====
-- Verification library for degoonification: the shared engine's domain and box tracking, the Linux
-- DNS sinkhole, and the Linux daemon from a captured frame to the pixels of the overlay.
--
-- The program blocks domains by a local DNS server and covers detected regions of the screen by
-- boxes. The parts, and the files that model them:
--
-- - Common: numbers, lists, bytes and machine words that all parts share.
-- - Domain, Radix: `DomainRadixTree` (core/engine_shared/src/radix_tree.cpp). Domain cuts a name into
--   labels (`split_domain_labels`); Radix has `insert`, `matches` and `clear`; Radix/Load has
--   `load_from_file`, and Radix/Entries blocklists as they are written. The hash map of a node is a list of
--   children. Radix/Nodes, Radix/Refinement,
--   Radix/Size and Radix/Names have the proofs, and the independent description `covers`.
-- - Bloom: `BloomFilter` (core/engine_shared/src/bloom_filter.cpp), with products and sums modulo
--   2 ^ 64; an access out of bounds is `none`. Bloom/Doubles has the constructor over an interface
--   for `double`, Bloom/File the file format.
-- - Dns/Packet and Dns/Response: `DnsPacket::parse` and `build_sinkhole_response`
--   (platform/linux/network/dns_packet.cpp). Each read of the datagram is a step that can fault.
-- - Dns/Server: `DnsServer` (platform/linux/network/dns_server.cpp): `init`, `start`, `stop`, and
--   `run_loop` as a function on the datagrams, of which the buffer takes 2048 bytes. It uses the tree, the filter and the packets.
-- - Float, Boxes: `BoundingBox` (core/engine_shared/include/engine_shared/bounding_box.hpp) over an
--   interface for `float`; Boxes/Merge: `merge_overlapping_boxes`.
-- - Tracker: `TemporalSmoothingTracker` (core/engine_shared/src/temporal_smoothing.cpp).
-- - CApi: the C interface (core/engine_shared/src/c_api.cpp) over the tree, the filter and the tracker;
--   an `int32_t` is its bit pattern. CApi/Calls has `dg_tracker_process`, CApi/Handles the rest.
-- - Watchdog: `WatchdogSupervisor` (platform/linux/watchdog/watchdog_supervisor.cpp), `run` as a
--   function on the rounds of its loop.
-- - Video, Preprocessor: `VideoFrame` (platform/linux/capture/video_frame.hpp), and
--   `ImagePreprocessor::preprocess` (platform/linux/inference/image_preprocessor.cpp) into three planes;
--   Preprocessor/Planes has the proofs.
-- - Detector: `OnnxDetector::detect` (platform/linux/inference/onnx_detector.cpp) from the output of the
--   model on; Detector/Suppression has the loops of the suppression.
-- - Anchors: `VisualAnchorTracker` (platform/linux/inference/visual_anchor_tracker.hpp); Anchors/Pixels
--   has `sample_anchors` and `eval_anchors`; Anchors/Reading, Anchors/Shields and Anchors/Screen have the
--   proofs.
-- - Overlay: `WaylandOverlay` (platform/linux/overlay/wayland_overlay.cpp): `init`, the events, and
--   `render_boxes`, whose loops over pixels stand in Overlay/Pixels. Overlay/Painting, Overlay/Filling,
--   Overlay/Mosaic, Overlay/Screen and Overlay/Rendering have the proofs.
-- - Capture: `ScreencopyCapture::capture_frame` (platform/linux/capture/screencopy_capture.cpp) from the
--   file that `grim` has written; Capture/Header has the parser of the header.
-- - Ipc: the control socket. Ipc/Server has `IpcServer` (platform/linux/ipc/ipc_server.cpp), Ipc/Client
--   `IpcClient` (platform/linux/cli/ipc_client.cpp), Ipc/Numbers the decimal numbers that both write and
--   read; Ipc/Status has the answer to STATUS that `main` writes.
-- - Dashboard: `TuiDashboard` (platform/linux/cli/tui_dashboard.cpp): the loop over the keys, the times and
--   the progress bar; Dashboard/Keys has the proofs.
-- - Daemon: platform/linux/main.cpp. Daemon/Commands has the handler of the commands, Daemon/Worker the
--   rounds of the AI thread (preprocessor, detector, tracker), Daemon/Loop the main loop (socket,
--   overlay). Daemon/Steps has the interleavings of the two threads as a step relation; the main loop
--   reads the frame's number and its boxes at one moment, and renders them without the lock: a step of it is
--   given what the AI thread copies meanwhile into the buffer that the frame points to. Daemon/Paused and Daemon/Hidden prove what a
--   paused daemon shows, Daemon/Safety, Daemon/Rounds, Daemon/Main and Daemon/Runs that no run leaves
--   the bounds of a buffer.
-- - Tests: the theorems applied at concrete inputs.
--
-- Bounds and fuel: the parser's loop over a name runs on the 64 hops that the source itself counts.
-- The merging loop runs on one more round than there are boxes, which is enough, since every round
-- but the last leaves fewer boxes. The loops over the blocks of a mosaic run on the extents of the
-- rectangle, and running out is an access out of bounds, which is proved not to happen. A number is
-- written with up to 20 digits, which hold 64 bits. All other loops follow a list or a counter.
-- An access out of a frame, a plane or a pixel buffer is a result of its own, `fault`, and so are the
-- overflow of an `int` product of an offset, and a read of the shared buffer that was resized meanwhile.
--
-- Parameters: arithmetic of `float` and `double` and their texts, what sockets, Wayland and mmap give,
-- the contents of files, the output of the model, `std::sort`, the clocks, and what the system does with
-- a worker process.
--
-- Not modelled: the start and the join of threads; the command line, the text of the dashboard's
-- screen, the capture through PipeWire, the start of grim, the setup of the inference runtime and
-- anti-tamper, which are mostly calls of the operating system and of libraries; the back ends for
-- Windows and Android; and the generated Wayland code. Texts are in the C locale: `tolower` and
-- `isspace` act on ASCII.
pub mod Common
pub mod Domain
pub mod Radix
pub mod Bloom
pub mod Dns
pub mod Float
pub mod Boxes
pub mod Tracker
pub mod CApi
pub mod Watchdog
pub mod Detector
pub mod Video
pub mod Preprocessor
pub mod Anchors
pub mod Overlay
pub mod Ipc
pub mod Capture
pub mod Dashboard
pub mod Daemon
pub mod Tests
