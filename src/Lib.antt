-- ===== src/Lib.antt =====
-- A publisher captures frames from a V4L2 device into DMA buffers and hands them to a subscriber
-- over a Unix socket; the subscriber draws them in a Wayland window. This library models the
-- Rust implementation in rust/ with what the shared crate, the publishers and the subscriber
-- promise, alone and together.
--
-- The programs. rust/common is the shared crate: lib.rs has the handshake, socket.rs the socket,
-- and v4l2.rs the capture devices and the DMA heap. rust/publisher has two programs: publisher,
-- whose buffers are the driver's and are exported, and publisher_dma, whose buffers come from a
-- DMA heap. Either opens a device, starts it, waits for a subscriber, sends the handshake with
-- every buffer's descriptor, and then loops: take a frame from the driver (DQBUF), send the
-- buffer's index, wait for an ack, give the buffer back (QBUF). rust/subscriber receives, draws
-- and acks.
--
-- The files.
--   Base       names of the libraries, tests on numbers, lists by native numbers
--   Effect     how a computation ends (a result, an error, a panic, the end of its fuel), sequencing,
--              drops at the end of scopes; Effect.Triple and Effect.Scopes reason about these
--   CommandLine
--              what the command lines of the programs share
--   Platform   libc, nix and the kernel as a parameter: a machine with an unknown state and arbitrary
--              answers. A state of the process is the machine's, errno, and a trace of the calls that
--              have succeeded. Platform.Descriptors reads off the trace which descriptors the process
--              holds, Platform.Objects which objects of EGL and GLES there are, and
--              Platform.Buffers how often a buffer has changed hands
--   Wire       rust/common/src/lib.rs and the bytes on the socket
--   Socket     rust/common/src/socket.rs, function by function
--   V4l2       rust/common/src/v4l2.rs: V4l2.Format is v4l2_to_drm_fourcc, V4l2.Structs the mirrors of
--              the kernel's structs, V4l2.Ioctl is xioctl, V4l2.Capture is V4l2Capture (open_device is
--              open, drop_capture is drop, the other names are the source's), V4l2.CaptureDma is
--              V4l2CaptureDma, V4l2.Heap is alloc_dma_heap
--   Publisher  rust/publisher/src/main.rs (publisher) and rust/publisher/src/publisher_dma.rs
--              (publisher_dma): publisher and publisher_dma from the options on, and the whole mains with
--              their command lines in Publisher.Arguments. serve is their loop and frame one round of it.
--              Publisher.Protocol is the protocol as a state machine over the trace
--   Egl        rust/subscriber/src/egl.rs: Egl.Context has EglContext::init and its drop, Egl.Shaders
--              the shaders, Egl.Renderer QuadRenderer, and Egl itself the other methods. EGL and GLES are
--              the record Gpu. Egl.Resources follows what is made and deleted
--   Wayland    rust/subscriber/src/wayland.rs: AppState, its event handlers, dispatch_pending;
--              Wayland.Window is WaylandWindow::create. The crate wayland-client is the record Connection
--   Subscriber rust/subscriber/src/main.rs: draw_one, and the loop as receive, of which round is one
--              round; Subscriber.Main has main, as subscriber_main. Subscriber.Protocol is its side of
--              the protocol as a state machine
--   System     both programs at once: two runs, and a moment of each between which the socket carries
--              no byte that was not sent. System.Exclusion is about the buffers, System.Range about the
--              indices, System.Waiting about who waits for whom, System.Agreement about the handshake
--   Build      rust/common/build.rs (v4l2_build) and rust/subscriber/build.rs (egl_build): Build.Probe is
--              how their C programs are written and what they print, Build.Headers the programs
--              themselves, Build.Texts their texts as they stand in the source, and Build.Reading how the
--              Rust compiler reads the constants, with the ranges of their types. The machine that builds
--              is the record Host. In the other modules the constants are parameters
--   Tests      a small machine, on which the theorems are applied
-- A method with &mut self is a computation over the object beside the rest of the state. An
-- OwnedFd is a number that some owner closes: a local by finally or guarded, a capture by
-- scoped.
--
-- Fuel. xioctl repeats an interrupted call; its fuel bounds the calls, and
-- V4l2.Ioctl.Termination has how much is enough: any number above the interruptions to come,
-- with which the publishers as wholes end but for their loops (Publisher.Lasting), and the
-- subscriber but for its loop and window (Subscriber.Main.Lasting). The loops of both ends run
-- until RUNNING is cleared, a call fails or the window is closed, which no number of rounds
-- bounds; their theorems speak of the end of the rounds too. A theorem on the descriptors that
-- are held when a computation ends says nothing of a run whose fuel runs out, since such a run
-- has not ended. WaylandWindow::create waits for the configure event in rounds of dispatches, of
-- which one more than the compositor needs is enough (Wayland.Window.Configured).
--
-- Not modelled: prints and the counters of frames, signal handlers (RUNNING is the machine's);
-- what wayland-client, EGL and GLES hold inside of them, as their own descriptors; the C++
-- implementation in src/ and include/. The texts of errors are left out, their kinds are kept.
-- Descriptors are numbers; the driver's answer to EXPBUF or to an allocation is taken for one.
-- FD_SET on a descriptor above 1023 is not modelled. Products of u32 wrap, as in the release
-- build that rust/run.sh makes.
pub mod Base
pub mod Effect
pub mod CommandLine
pub mod Platform
pub mod V4l2
pub mod Wire
pub mod Socket
pub mod Publisher
pub mod Egl
pub mod Wayland
pub mod Subscriber
pub mod System
pub mod Build
pub mod Tests
