-- ===== src/Platform/Buffers.antt =====
-- How often buffers have changed hands with the driver, read off the trace.
use pub_sub_v4l2_dmabuf_wayl.Base.{ℕ, suc, ◌+◌, List, [], ◌∷◌, ◌==◌, if◌then◌else◌}
use pub_sub_v4l2_dmabuf_wayl.Platform.{Event, queued, dequeued}

-- How often a buffer has come from the driver, and gone back to it.
abbrev pub takes : ℕ → List Event → ℕ
takes j [] = 0
takes j (dequeued fd i ∷ t) = (if i == j then 1 else 0) + takes j t
takes j (_ ∷ t) = takes j t

abbrev pub gives : ℕ → List Event → ℕ
gives j [] = 0
gives j (queued fd i ∷ t) = (if i == j then 1 else 0) + gives j t
gives j (_ ∷ t) = gives j t

-- How many frames have been taken from the driver.
abbrev pub frames : List Event → ℕ
frames [] = 0
frames (dequeued fd i ∷ t) = suc (frames t)
frames (_ ∷ t) = frames t
