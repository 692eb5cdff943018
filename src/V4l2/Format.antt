-- ===== src/V4l2/Format.antt =====
-- rust/common/src/v4l2.rs: `v4l2_to_drm_fourcc`.
use pub_sub_v4l2_dmabuf_wayl.Base.{ℕ, Option, none, some, ◌==◌, if◌then◌else◌}
use pub_sub_v4l2_dmabuf_wayl.Platform.Headers.{Consts}

-- The arms of the match, in order.
unfoldable pub v4l2_to_drm_fourcc : Consts → ℕ → Option ℕ
v4l2_to_drm_fourcc c v4l2 =
    if v4l2 == c.pix_fmt_yuyv
    then some c.drm_yuyv
    else if v4l2 == c.pix_fmt_uyvy
    then some c.drm_uyvy
    else if v4l2 == c.pix_fmt_nv12
    then some c.drm_nv12
    else if v4l2 == c.pix_fmt_nv21
    then some c.drm_nv21
    else if v4l2 == c.pix_fmt_rgb24
    then some c.drm_rgb888
    else if v4l2 == c.pix_fmt_bgr24
    then some c.drm_bgr888
    else if v4l2 == c.pix_fmt_abgr32
    then some c.drm_argb8888
    else if v4l2 == c.pix_fmt_xbgr32
    then some c.drm_xrgb8888
    else none
