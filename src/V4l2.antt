-- ===== src/V4l2.antt =====
-- rust/common/src/v4l2.rs, by its parts: pixel formats, the `ioctl` wrapper, the two capture types
-- and the DMA heap.
pub mod Structs
pub mod Format
pub mod Ioctl
pub mod Capture
pub mod CaptureDma
pub mod Heap
