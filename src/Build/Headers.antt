-- ===== src/Build/Headers.antt =====
-- The probes' programs, CONST_PROBE_C of rust/common/build.rs and of rust/subscriber/build.rs, line by
-- line.
use pub_sub_v4l2_dmabuf_wayl.Base.{List, [], ◌∷◌, true, false}
use pub_sub_v4l2_dmabuf_wayl.Build.Probe.{Macro, Item, line, constant}

-- `EU`, `EPU` and `EL` of the first probe, `EI` and `EU` of the second.
abbrev pub eu : Macro
eu = record { name = "EU"; visible = false; rust_type = "u32"; width = 8; digits = 8 }

abbrev pub epu : Macro
epu = record { name = "EPU"; visible = true; rust_type = "u32"; width = 8; digits = 8 }

abbrev pub el : Macro
el = record { name = "EL"; visible = false; rust_type = "u64"; width = 16; digits = 16 }

abbrev pub ei : Macro
ei = record { name = "EI"; visible = false; rust_type = "i32"; width = 4; digits = 8 }

abbrev pub eu_short : Macro
eu_short = record { name = "EU"; visible = false; rust_type = "u32"; width = 4; digits = 8 }

-- The numbers of V4L2 and DRM.
abbrev pub v4l2_probe : List Item
v4l2_probe =
    line ""
    ∷ line "#include <stdio.h>"
    ∷ line "#include <linux/videodev2.h>"
    ∷ line "#include <drm/drm_fourcc.h>"
    ∷ line ""
    ∷ line "/* private u32 constant */"
    ∷ line "#define EU(n)   printf(\"const \" #n \": u32 = 0x%08X;\\n\", (unsigned int)(n))"
    ∷ line "/* public u32 constant (exported from the crate) */"
    ∷ line "#define EPU(n)  printf(\"pub const \" #n \": u32 = 0x%08X;\\n\", (unsigned int)(n))"
    ∷ line "/* ioctl request number — unsigned long = u64 on 64-bit Linux */"
    ∷ line "#define EL(n)   printf(\"const \" #n \": u64 = 0x%016lX;\\n\", (unsigned long)(n))"
    ∷ line ""
    ∷ line "int main(void) {"
    ∷ line "    /* ----- buffer type / memory / field / capability ----- */"
    ∷ constant eu "V4L2_BUF_TYPE_VIDEO_CAPTURE"
    ∷ constant eu "V4L2_MEMORY_MMAP"
    ∷ constant eu "V4L2_MEMORY_DMABUF"
    ∷ constant eu "V4L2_FIELD_ANY"
    ∷ constant eu "V4L2_CAP_VIDEO_CAPTURE"
    ∷ constant eu "V4L2_CAP_STREAMING"
    ∷ line ""
    ∷ line
        "    /* ----- VIDIOC ioctl numbers (encoded with struct sizes via _IOR/_IOW/_IOWR) ----- */"
    ∷ constant el "VIDIOC_QUERYCAP"
    ∷ constant el "VIDIOC_S_FMT"
    ∷ constant el "VIDIOC_REQBUFS"
    ∷ constant el "VIDIOC_QUERYBUF"
    ∷ constant el "VIDIOC_EXPBUF"
    ∷ constant el "VIDIOC_QBUF"
    ∷ constant el "VIDIOC_DQBUF"
    ∷ constant el "VIDIOC_STREAMON"
    ∷ constant el "VIDIOC_STREAMOFF"
    ∷ line ""
    ∷ line "    /* ----- V4L2 pixel format FOURCCs ----- */"
    ∷ constant epu "V4L2_PIX_FMT_YUYV"
    ∷ constant epu "V4L2_PIX_FMT_UYVY"
    ∷ constant epu "V4L2_PIX_FMT_NV12"
    ∷ constant epu "V4L2_PIX_FMT_NV21"
    ∷ constant epu "V4L2_PIX_FMT_RGB24"
    ∷ constant epu "V4L2_PIX_FMT_BGR24"
    ∷ constant epu "V4L2_PIX_FMT_ABGR32"
    ∷ constant epu "V4L2_PIX_FMT_XBGR32"
    ∷ line ""
    ∷ line "    /* ----- DRM pixel format FOURCCs ----- */"
    ∷ constant epu "DRM_FORMAT_YUYV"
    ∷ constant epu "DRM_FORMAT_UYVY"
    ∷ constant epu "DRM_FORMAT_NV12"
    ∷ constant epu "DRM_FORMAT_NV21"
    ∷ constant epu "DRM_FORMAT_RGB888"
    ∷ constant epu "DRM_FORMAT_BGR888"
    ∷ constant epu "DRM_FORMAT_ARGB8888"
    ∷ constant epu "DRM_FORMAT_XRGB8888"
    ∷ line ""
    ∷ line "    return 0;"
    ∷ line "}"
    ∷ []

-- The numbers of EGL and GLES.
abbrev pub egl_probe : List Item
egl_probe =
    line ""
    ∷ line "#include <stdio.h>"
    ∷ line "#include <EGL/egl.h>"
    ∷ line "#include <EGL/eglext.h>"
    ∷ line "#include <GLES2/gl2.h>"
    ∷ line "#include <GLES2/gl2ext.h>"
    ∷ line ""
    ∷ line "#define EI(n) printf(\"const \" #n \": i32 = 0x%04X;\\n\", (unsigned)(n))"
    ∷ line "#define EU(n) printf(\"const \" #n \": u32 = 0x%04X;\\n\", (unsigned)(n))"
    ∷ line ""
    ∷ line "int main(void) {"
    ∷ constant ei "EGL_EXTENSIONS"
    ∷ constant eu_short "EGL_OPENGL_ES_API"
    ∷ constant ei "EGL_SURFACE_TYPE"
    ∷ constant ei "EGL_WINDOW_BIT"
    ∷ constant ei "EGL_RENDERABLE_TYPE"
    ∷ constant ei "EGL_OPENGL_ES2_BIT"
    ∷ constant ei "EGL_RED_SIZE"
    ∷ constant ei "EGL_GREEN_SIZE"
    ∷ constant ei "EGL_BLUE_SIZE"
    ∷ constant ei "EGL_ALPHA_SIZE"
    ∷ constant ei "EGL_NONE"
    ∷ constant ei "EGL_CONTEXT_CLIENT_VERSION"
    ∷ constant ei "EGL_WIDTH"
    ∷ constant ei "EGL_HEIGHT"
    ∷ constant eu_short "EGL_LINUX_DMA_BUF_EXT"
    ∷ constant ei "EGL_LINUX_DRM_FOURCC_EXT"
    ∷ constant ei "EGL_DMA_BUF_PLANE0_FD_EXT"
    ∷ constant ei "EGL_DMA_BUF_PLANE0_OFFSET_EXT"
    ∷ constant ei "EGL_DMA_BUF_PLANE0_PITCH_EXT"
    ∷ constant ei "EGL_DMA_BUF_PLANE1_FD_EXT"
    ∷ constant ei "EGL_DMA_BUF_PLANE1_OFFSET_EXT"
    ∷ constant ei "EGL_DMA_BUF_PLANE1_PITCH_EXT"
    ∷ constant ei "EGL_DMA_BUF_PLANE0_MODIFIER_LO_EXT"
    ∷ constant ei "EGL_DMA_BUF_PLANE0_MODIFIER_HI_EXT"
    ∷ constant ei "EGL_DMA_BUF_PLANE1_MODIFIER_LO_EXT"
    ∷ constant ei "EGL_DMA_BUF_PLANE1_MODIFIER_HI_EXT"
    ∷ constant eu_short "EGL_PLATFORM_WAYLAND_EXT"
    ∷ constant eu_short "GL_FRAGMENT_SHADER"
    ∷ constant eu_short "GL_VERTEX_SHADER"
    ∷ constant eu_short "GL_COMPILE_STATUS"
    ∷ constant eu_short "GL_LINK_STATUS"
    ∷ constant eu_short "GL_TEXTURE_2D"
    ∷ constant eu_short "GL_TEXTURE_EXTERNAL_OES"
    ∷ constant eu_short "GL_TEXTURE_MIN_FILTER"
    ∷ constant eu_short "GL_TEXTURE_MAG_FILTER"
    ∷ constant eu_short "GL_TEXTURE_WRAP_S"
    ∷ constant eu_short "GL_TEXTURE_WRAP_T"
    ∷ constant eu_short "GL_LINEAR"
    ∷ constant eu_short "GL_CLAMP_TO_EDGE"
    ∷ constant eu_short "GL_ARRAY_BUFFER"
    ∷ constant eu_short "GL_STATIC_DRAW"
    ∷ constant eu_short "GL_COLOR_BUFFER_BIT"
    ∷ constant eu_short "GL_FLOAT"
    ∷ constant eu_short "GL_TRIANGLE_STRIP"
    ∷ constant eu_short "GL_RENDERER"
    ∷ constant eu_short "GL_TEXTURE0"
    ∷ line "    return 0;"
    ∷ line "}"
    ∷ []
