-- ===== src/Build/Texts.antt =====
-- CONST_PROBE_C of rust/common/build.rs and of rust/subscriber/build.rs, as the text that it is.
use pub_sub_v4l2_dmabuf_wayl.Base.{ℕ, ◌≡◌, refl, List, [], ◌∷◌, ◌++◌, codes}
use Prim.Native.String.{String}
use pub_sub_v4l2_dmabuf_wayl.Build.Probe.{source}
use pub_sub_v4l2_dmabuf_wayl.Build.Headers.{v4l2_probe, egl_probe}

abbrev pub lines : List String → List ℕ
lines [] = []
lines (l ∷ ls) = codes l ++ (10 ∷ lines ls)

abbrev pub v4l2_text : List String
v4l2_text =
    "" ∷ "#include <stdio.h>" ∷ "#include <linux/videodev2.h>" ∷ "#include <drm/drm_fourcc.h>" ∷ ""
    ∷ "/* private u32 constant */"
    ∷ "#define EU(n)   printf(\"const \" #n \": u32 = 0x%08X;\\n\", (unsigned int)(n))"
    ∷ "/* public u32 constant (exported from the crate) */"
    ∷ "#define EPU(n)  printf(\"pub const \" #n \": u32 = 0x%08X;\\n\", (unsigned int)(n))"
    ∷ "/* ioctl request number — unsigned long = u64 on 64-bit Linux */"
    ∷ "#define EL(n)   printf(\"const \" #n \": u64 = 0x%016lX;\\n\", (unsigned long)(n))" ∷ ""
    ∷ "int main(void) {" ∷ "    /* ----- buffer type / memory / field / capability ----- */"
    ∷ "    EU(V4L2_BUF_TYPE_VIDEO_CAPTURE);" ∷ "    EU(V4L2_MEMORY_MMAP);"
    ∷ "    EU(V4L2_MEMORY_DMABUF);" ∷ "    EU(V4L2_FIELD_ANY);" ∷ "    EU(V4L2_CAP_VIDEO_CAPTURE);"
    ∷ "    EU(V4L2_CAP_STREAMING);" ∷ ""
    ∷ "    /* ----- VIDIOC ioctl numbers (encoded with struct sizes via _IOR/_IOW/_IOWR) ----- */"
    ∷ "    EL(VIDIOC_QUERYCAP);" ∷ "    EL(VIDIOC_S_FMT);" ∷ "    EL(VIDIOC_REQBUFS);"
    ∷ "    EL(VIDIOC_QUERYBUF);" ∷ "    EL(VIDIOC_EXPBUF);" ∷ "    EL(VIDIOC_QBUF);"
    ∷ "    EL(VIDIOC_DQBUF);" ∷ "    EL(VIDIOC_STREAMON);" ∷ "    EL(VIDIOC_STREAMOFF);" ∷ ""
    ∷ "    /* ----- V4L2 pixel format FOURCCs ----- */" ∷ "    EPU(V4L2_PIX_FMT_YUYV);"
    ∷ "    EPU(V4L2_PIX_FMT_UYVY);" ∷ "    EPU(V4L2_PIX_FMT_NV12);" ∷ "    EPU(V4L2_PIX_FMT_NV21);"
    ∷ "    EPU(V4L2_PIX_FMT_RGB24);" ∷ "    EPU(V4L2_PIX_FMT_BGR24);"
    ∷ "    EPU(V4L2_PIX_FMT_ABGR32);" ∷ "    EPU(V4L2_PIX_FMT_XBGR32);" ∷ ""
    ∷ "    /* ----- DRM pixel format FOURCCs ----- */" ∷ "    EPU(DRM_FORMAT_YUYV);"
    ∷ "    EPU(DRM_FORMAT_UYVY);" ∷ "    EPU(DRM_FORMAT_NV12);" ∷ "    EPU(DRM_FORMAT_NV21);"
    ∷ "    EPU(DRM_FORMAT_RGB888);" ∷ "    EPU(DRM_FORMAT_BGR888);"
    ∷ "    EPU(DRM_FORMAT_ARGB8888);" ∷ "    EPU(DRM_FORMAT_XRGB8888);" ∷ "" ∷ "    return 0;" ∷ "}"
    ∷ []

abbrev pub egl_text : List String
egl_text =
    "" ∷ "#include <stdio.h>" ∷ "#include <EGL/egl.h>" ∷ "#include <EGL/eglext.h>"
    ∷ "#include <GLES2/gl2.h>" ∷ "#include <GLES2/gl2ext.h>" ∷ ""
    ∷ "#define EI(n) printf(\"const \" #n \": i32 = 0x%04X;\\n\", (unsigned)(n))"
    ∷ "#define EU(n) printf(\"const \" #n \": u32 = 0x%04X;\\n\", (unsigned)(n))" ∷ ""
    ∷ "int main(void) {" ∷ "    EI(EGL_EXTENSIONS);" ∷ "    EU(EGL_OPENGL_ES_API);"
    ∷ "    EI(EGL_SURFACE_TYPE);" ∷ "    EI(EGL_WINDOW_BIT);" ∷ "    EI(EGL_RENDERABLE_TYPE);"
    ∷ "    EI(EGL_OPENGL_ES2_BIT);" ∷ "    EI(EGL_RED_SIZE);" ∷ "    EI(EGL_GREEN_SIZE);"
    ∷ "    EI(EGL_BLUE_SIZE);" ∷ "    EI(EGL_ALPHA_SIZE);" ∷ "    EI(EGL_NONE);"
    ∷ "    EI(EGL_CONTEXT_CLIENT_VERSION);" ∷ "    EI(EGL_WIDTH);" ∷ "    EI(EGL_HEIGHT);"
    ∷ "    EU(EGL_LINUX_DMA_BUF_EXT);" ∷ "    EI(EGL_LINUX_DRM_FOURCC_EXT);"
    ∷ "    EI(EGL_DMA_BUF_PLANE0_FD_EXT);" ∷ "    EI(EGL_DMA_BUF_PLANE0_OFFSET_EXT);"
    ∷ "    EI(EGL_DMA_BUF_PLANE0_PITCH_EXT);" ∷ "    EI(EGL_DMA_BUF_PLANE1_FD_EXT);"
    ∷ "    EI(EGL_DMA_BUF_PLANE1_OFFSET_EXT);" ∷ "    EI(EGL_DMA_BUF_PLANE1_PITCH_EXT);"
    ∷ "    EI(EGL_DMA_BUF_PLANE0_MODIFIER_LO_EXT);" ∷ "    EI(EGL_DMA_BUF_PLANE0_MODIFIER_HI_EXT);"
    ∷ "    EI(EGL_DMA_BUF_PLANE1_MODIFIER_LO_EXT);" ∷ "    EI(EGL_DMA_BUF_PLANE1_MODIFIER_HI_EXT);"
    ∷ "    EU(EGL_PLATFORM_WAYLAND_EXT);" ∷ "    EU(GL_FRAGMENT_SHADER);"
    ∷ "    EU(GL_VERTEX_SHADER);" ∷ "    EU(GL_COMPILE_STATUS);" ∷ "    EU(GL_LINK_STATUS);"
    ∷ "    EU(GL_TEXTURE_2D);" ∷ "    EU(GL_TEXTURE_EXTERNAL_OES);"
    ∷ "    EU(GL_TEXTURE_MIN_FILTER);" ∷ "    EU(GL_TEXTURE_MAG_FILTER);"
    ∷ "    EU(GL_TEXTURE_WRAP_S);" ∷ "    EU(GL_TEXTURE_WRAP_T);" ∷ "    EU(GL_LINEAR);"
    ∷ "    EU(GL_CLAMP_TO_EDGE);" ∷ "    EU(GL_ARRAY_BUFFER);" ∷ "    EU(GL_STATIC_DRAW);"
    ∷ "    EU(GL_COLOR_BUFFER_BIT);" ∷ "    EU(GL_FLOAT);" ∷ "    EU(GL_TRIANGLE_STRIP);"
    ∷ "    EU(GL_RENDERER);" ∷ "    EU(GL_TEXTURE0);" ∷ "    return 0;" ∷ "}" ∷ []

-- The programs of the model are these texts.
pub source-v4l2_probe : source v4l2_probe ≡ lines v4l2_text
unfolding source
source-v4l2_probe = refl

pub source-egl_probe : source egl_probe ≡ lines egl_text
unfolding source
source-egl_probe = refl
