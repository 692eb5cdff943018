-- ===== src/Tests/Viewer.antt =====
-- The subscriber's theorems, applied on the machine at which the index 1 arrives again and again.
use pub_sub_v4l2_dmabuf_wayl.Base.{◌≡◌, ◌||◌, List, [], ◌∷◌, true, some}
use pub_sub_v4l2_dmabuf_wayl.Base.{ℕ, zero, suc, ◌+◌, ◌<◌, get_or, none, codes, arith}
use pub_sub_v4l2_dmabuf_wayl.Wire.{FrameMeta}
use pub_sub_v4l2_dmabuf_wayl.Egl.{dmabuf_attrs}
use pub_sub_v4l2_dmabuf_wayl.Effect.Triple.{Sat}
use pub_sub_v4l2_dmabuf_wayl.Egl.{EglConsts, Gpu, EglContext}
use pub_sub_v4l2_dmabuf_wayl.Egl.Attributes.{attribute, Distinct, attribute-dmabuf_attrs}
use pub_sub_v4l2_dmabuf_wayl.Wayland.{
  new, Connection, WlEvent, global, ping, configure, close, wl_compositor, xdg_wm_base, events,
}
use pub_sub_v4l2_dmabuf_wayl.Wayland.Events.{
  due, replies, asks_to_close, events-replies, events-should_close,
}
use pub_sub_v4l2_dmabuf_wayl.Subscriber.{Session, receive}
use pub_sub_v4l2_dmabuf_wayl.Subscriber.Protocol.{begin}
use pub_sub_v4l2_dmabuf_wayl.Subscriber.Frames.{Between, between, receive-View}
use pub_sub_v4l2_dmabuf_wayl.Subscriber.Images.{Released, releasing, receive-Released}
use pub_sub_v4l2_dmabuf_wayl.Tests.{receiver, receiver_world}

abbrev pub names : EglConsts
names = record {
  egl_width = 1;
  egl_height = 2;
  egl_linux_drm_fourcc = 3;
  plane0_fd = 4;
  plane0_offset = 5;
  plane0_pitch = 6;
  plane0_modifier_lo = 7;
  plane0_modifier_hi = 8;
  plane1_fd = 9;
  plane1_offset = 10;
  plane1_pitch = 11;
  plane1_modifier_lo = 12;
  plane1_modifier_hi = 13;
  egl_none = 14;
  egl_surface_type = 15;
  egl_window_bit = 16;
  egl_renderable_type = 17;
  egl_opengl_es2_bit = 18;
  egl_red_size = 19;
  egl_green_size = 20;
  egl_blue_size = 21;
  egl_alpha_size = 22;
  egl_context_client_version = 23;
  gl_vertex_shader = 24;
  gl_fragment_shader = 25;
  gl_texture_2d = 26;
  gl_texture_external_oes = 27;
  gl_texture_min_filter = 28;
  gl_texture_mag_filter = 29;
  gl_texture_wrap_s = 30;
  gl_texture_wrap_t = 31;
  gl_linear = 32;
  gl_clamp_to_edge = 33;
}

-- Each import gives the image 100.
abbrev pub gpu : Gpu receiver
gpu = record {
  egl = names;
  client_extensions = λ n. some (codes "EGL_EXT_platform_wayland");
  extensions = λ d n. codes "EGL_EXT_image_dma_buf_import_modifiers";
  has_proc = λ p n. true;
  get_platform_display = λ native n. (some 1, n);
  get_display = λ native n. (none, n);
  initialize = λ d n. (true, n);
  bind_api = λ n. (true, n);
  choose_config = λ d attrs n. ((true, 1, 5), n);
  create_context = λ d config attrs n. (some 2, n);
  create_window_surface = λ d config window n. (some 3, n);
  make_current = λ d f c n. (true, n);
  destroy_surface = λ d f n. n;
  destroy_context = λ d c n. n;
  terminate = λ d n. n;
  create_image = λ d attrs n. (some 100, n);
  destroy_image = λ d img n. n;
  swap_buffers = λ d f n. n;
  gl = λ call n. n;
  create_shader = λ kind n. (kind, n);
  create_program = λ n. (8, n);
  gen_buffer = λ n. (9, n);
  gen_texture = λ n. (10, n);
  compile_status = λ sh n. true;
  link_status = λ p n. true;
  attrib_location = λ p name n. 0;
  uniform_location = λ p name n. 0;
}

-- A ping is always waiting.
abbrev pub compositor : Connection receiver
compositor = record {
  connect = λ n. (some 1, n);
  roundtrip = λ n. (global 1 wl_compositor 6 ∷ global 2 xdg_wm_base 2 ∷ [], true, n);
  blocking = λ n. (configure 8 ∷ [], true, n);
  egl_window = λ width height n. (some 4, n);
  flush = λ n. n;
  pending = λ n. (ping 7 ∷ [], true, n);
  send = λ requests n. n;
}

abbrev pub egl_context : EglContext
egl_context = record { display = 1; context = 2; surface = 3; has_modifiers = true }

abbrev pub session : Session
session = record {
  egl = egl_context;
  renderer = record {
    program = 1;
    texture = 1;
    vbo = 1;
    attr_pos = 0;
    attr_uv = 1;
    uni_tex = 0;
    tex_target = 1;
    viewport_w = 640;
    viewport_h = 480;
  };
  frame_meta = record { width = 640; height = 480; format = 22; stride = 640; size = 460800 };
  buf_fds = 6 ∷ 7 ∷ [];
  sock = 4;
}

receive-View_example :
    Sat
      (λ _ s. Between receiver gpu compositor session [] s.1.trace)
      (between receiver gpu compositor session [])
      (receive receiver gpu compositor session 2 (new, receiver_world))
receive-View_example = receive-View receiver gpu compositor session [] 2 new receiver_world begin

receive-Released_example :
    Sat
      (λ _ s. Released [] s.1.trace)
      (releasing receiver gpu compositor session [])
      (receive receiver gpu compositor session 2 (new, receiver_world))
receive-Released_example = receive-Released receiver gpu compositor session 2 new receiver_world

-- The numbers from `n` on, so many of them.
abbrev counting : ℕ → ℕ → List ℕ
counting n zero = []
counting n (suc m) = n ∷ counting (n + 1) m

get_or-counting : (m n i : ℕ) → i < m → get_or (counting n m) i 0 ≡ n + i
get_or-counting zero n i h = absurd (omega (arith, h))
get_or-counting (suc m) n zero h = omega arith
get_or-counting (suc m) n (suc i) h = omega (arith, get_or-counting m (n + 1) i (omega (arith, h)))

names-Distinct : Distinct names
names-Distinct = record {
  at = λ i j a b e. omega (arith, e, get_or-counting 14 1 i a, get_or-counting 14 1 j b);
}

abbrev nv12 : FrameMeta
nv12 = record { width = 640; height = 480; format = 22; stride = 640; size = 460800 }

attribute-dmabuf_attrs_example :
    (attribute 14 9 (dmabuf_attrs receiver gpu egl_context 6 nv12) ≡ some 6)
    × (attribute 14 10 (dmabuf_attrs receiver gpu egl_context 6 nv12) ≡ some 307200)
    × (attribute 14 11 (dmabuf_attrs receiver gpu egl_context 6 nv12) ≡ some 640)
attribute-dmabuf_attrs_example =
    attribute-dmabuf_attrs receiver gpu egl_context names-Distinct 6 nv12

abbrev queue : List WlEvent
queue = global 1 wl_compositor 6 ∷ ping 7 ∷ configure 8 ∷ close ∷ ping 9 ∷ []

events-replies_example : replies (events queue new).0 ≡ due queue
events-replies_example = events-replies queue new

events-should_close_example :
    (events queue new).1.should_close ≡ (new.should_close || asks_to_close queue)
events-should_close_example = events-should_close queue new
