-- ===== src/System.antt =====
-- The two programs together: rust/publisher and rust/subscriber at the two ends of one socket, each
-- in its loop, at any moment of their runs. What joins them is the socket alone: each end has
-- received a prefix of the bytes that the other has sent.
pub mod Streams
pub mod Told
pub mod Heard
pub mod Sharing
pub mod Exclusion
pub mod Range
pub mod Agreement
pub mod Waiting
