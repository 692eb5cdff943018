-- ===== src/V4l2/Structs.antt =====
-- rust/common/src/v4l2.rs: the mirrors of the kernel's structs that `ioctl` reads and fills.
-- Padding and reserved bytes are left out; every other field is kept.
use pub_sub_v4l2_dmabuf_wayl.Base.{ℕ, List, replicate}

pub record V4l2Capability : Type 0 where
  pub driver : List ℕ
  pub card : List ℕ
  pub bus_info : List ℕ
  pub version : ℕ
  pub capabilities : ℕ
  pub device_caps : ℕ

pub record V4l2PixFormat : Type 0 where
  pub width : ℕ
  pub height : ℕ
  pub pixelformat : ℕ
  pub field : ℕ
  pub bytesperline : ℕ
  pub sizeimage : ℕ
  pub colorspace : ℕ
  pub priv : ℕ
  pub flags : ℕ
  pub enc : ℕ
  pub quantization : ℕ
  pub xfer_func : ℕ

pub record V4l2Format : Type 0 where
  pub type_ : ℕ
  pub pix : V4l2PixFormat

pub record V4l2RequestBuffers : Type 0 where
  pub count : ℕ
  pub type_ : ℕ
  pub memory : ℕ
  pub capabilities : ℕ
  pub flags : ℕ

pub record V4l2Buffer : Type 0 where
  pub index : ℕ
  pub type_ : ℕ
  pub bytesused : ℕ
  pub flags : ℕ
  pub field : ℕ
  pub timestamp : List ℕ
  pub timecode : List ℕ
  pub sequence : ℕ
  pub memory : ℕ
  pub m : ℕ
  pub length : ℕ

pub record V4l2ExportBuffer : Type 0 where
  pub type_ : ℕ
  pub index : ℕ
  pub plane : ℕ
  pub flags : ℕ
  pub fd : ℕ

pub record DmaHeapAllocationData : Type 0 where
  pub len : ℕ
  pub fd : ℕ
  pub fd_flags : ℕ
  pub heap_flags : ℕ

-- `Default::default()` and `std::mem::zeroed()`.
abbrev pub zeroed_capability : V4l2Capability
zeroed_capability = record {
  driver = replicate 16 0;
  card = replicate 32 0;
  bus_info = replicate 32 0;
  version = 0;
  capabilities = 0;
  device_caps = 0;
}

abbrev pub zeroed_format : V4l2Format
zeroed_format = record {
  type_ = 0;
  pix = record {
    width = 0;
    height = 0;
    pixelformat = 0;
    field = 0;
    bytesperline = 0;
    sizeimage = 0;
    colorspace = 0;
    priv = 0;
    flags = 0;
    enc = 0;
    quantization = 0;
    xfer_func = 0;
  };
}

abbrev pub zeroed_request : V4l2RequestBuffers
zeroed_request = record { count = 0; type_ = 0; memory = 0; capabilities = 0; flags = 0 }

abbrev pub zeroed_buffer : V4l2Buffer
zeroed_buffer = record {
  index = 0;
  type_ = 0;
  bytesused = 0;
  flags = 0;
  field = 0;
  timestamp = replicate 16 0;
  timecode = replicate 16 0;
  sequence = 0;
  memory = 0;
  m = 0;
  length = 0;
}

abbrev pub zeroed_export : V4l2ExportBuffer
zeroed_export = record { type_ = 0; index = 0; plane = 0; flags = 0; fd = 0 }
