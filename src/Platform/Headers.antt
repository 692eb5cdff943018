-- ===== src/Platform/Headers.antt =====
-- The constants that rust/common/build.rs reads from linux/videodev2.h and drm_fourcc.h.
use pub_sub_v4l2_dmabuf_wayl.Base.{ℕ}

pub record Consts : Type 0 where
  pub buf_type_video_capture : ℕ
  pub memory_mmap : ℕ
  pub memory_dmabuf : ℕ
  pub field_any : ℕ
  pub cap_video_capture : ℕ
  pub cap_streaming : ℕ
  pub pix_fmt_yuyv : ℕ
  pub pix_fmt_uyvy : ℕ
  pub pix_fmt_nv12 : ℕ
  pub pix_fmt_nv21 : ℕ
  pub pix_fmt_rgb24 : ℕ
  pub pix_fmt_bgr24 : ℕ
  pub pix_fmt_abgr32 : ℕ
  pub pix_fmt_xbgr32 : ℕ
  pub drm_yuyv : ℕ
  pub drm_uyvy : ℕ
  pub drm_nv12 : ℕ
  pub drm_nv21 : ℕ
  pub drm_rgb888 : ℕ
  pub drm_bgr888 : ℕ
  pub drm_argb8888 : ℕ
  pub drm_xrgb8888 : ℕ
  -- libc's `O_CLOEXEC | O_RDWR`, as the struct fields take it
  pub o_cloexec_rdwr : ℕ
  -- libc's `EINTR`
  pub eintr : ℕ
