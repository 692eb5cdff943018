-- ===== src/Egl/Context.antt =====
-- rust/subscriber/src/egl.rs: `EglContext::init` and its drop.
use pub_sub_v4l2_dmabuf_wayl.Base.{
  ℕ, List, [], ◌∷◌, Bool, false, ◌&&◌, ◌||◌, not, Option, none, some, ltb, if◌then◌else◌, codes,
  contains,
}
use pub_sub_v4l2_dmabuf_wayl.Effect.{ret, other, pure, throw, ◌>>=◌, ◌>>◌, modify, state}
use pub_sub_v4l2_dmabuf_wayl.Platform.{
  Platform, Io, Object, display, context, surface, created, deleted,
}
use pub_sub_v4l2_dmabuf_wayl.Egl.{
  Gpu, EglContext, proc_get_platform_display, proc_create_image, proc_destroy_image,
  proc_image_target,
}

module _ (S : Platform) (G : Gpu S) where
  -- A call that gives a value and no object.
  unfoldable pub calling : {A : Type 0} → (S.State → A × S.State) → Io S A
  calling f w = ret (f w.sys).0 (record w { sys = (f w.sys).1 })

  -- A call that makes an object, with the early return where it gives the null handle.
  unfoldable pub obtain : Object → (S.State → Option ℕ × S.State) → Io S ℕ
  obtain k f w =
      let s = (f w.sys).1 in
      elim (f w.sys).0 [
        | none ↦ throw other (record w { sys = s })
        | some h ↦ ret h (record w { sys = s; trace = created k h ∷ w.trace })
      ]

  abbrev or_fail : Option ℕ → Io S ℕ
  or_fail none = throw other
  or_fail (some h) = pure h

  -- The early return where a condition does not hold.
  unfoldable pub checking : Bool → Io S (Unit {0})
  checking b = if b then pure tt else throw other

  abbrev names_platform : Option (List ℕ) → Bool
  names_platform none = false
  names_platform (some names) =
      contains (codes "EGL_EXT_platform_wayland") names
      || contains (codes "EGL_KHR_platform_wayland") names

  -- By the platform's own call where there is one.
  unfoldable pub platform_display : ℕ → Io S (Option ℕ)
  platform_display wl_display = do
    wayland ← state (λ w. names_platform (G.client_extensions w.sys))
    proc ← state (λ w. G.has_proc proc_get_platform_display w.sys)
    if wayland && proc then calling (G.get_platform_display wl_display) else pure none

  unfoldable pub or_default : ℕ → Option ℕ → Io S ℕ
  or_default wl_display (some h) = pure h
  or_default wl_display none = calling (G.get_display wl_display) >>= or_fail

  unfoldable pub choose_display : ℕ → Io S ℕ
  choose_display wl_display = platform_display wl_display >>= or_default wl_display

  -- `eglInitialize`, after which the display is to be terminated.
  unfoldable pub initialize : ℕ → Io S (Unit {0})
  initialize d w =
      let s = (G.initialize d w.sys).1 in
      if (G.initialize d w.sys).0
      then ret tt (record w { sys = s; trace = created display d ∷ w.trace })
      else throw other (record w { sys = s })

  abbrev config_attribs : List ℕ
  config_attribs =
      G.egl.egl_surface_type ∷ G.egl.egl_window_bit ∷ G.egl.egl_renderable_type
      ∷ G.egl.egl_opengl_es2_bit ∷ G.egl.egl_red_size ∷ 8 ∷ G.egl.egl_green_size ∷ 8
      ∷ G.egl.egl_blue_size ∷ 8 ∷ G.egl.egl_alpha_size ∷ 8 ∷ G.egl.egl_none ∷ []

  abbrev ctx_attribs : List ℕ
  ctx_attribs = G.egl.egl_context_client_version ∷ 2 ∷ G.egl.egl_none ∷ []

  unfoldable pub first_config : Bool × ℕ × ℕ → Io S ℕ
  first_config (fine, count, config) = if not fine || ltb count 1 then throw other else pure config

  unfoldable pub choose_config : ℕ → Io S ℕ
  choose_config d = calling (G.choose_config d config_attribs) >>= first_config

  unfoldable pub has_procs : S.State → Bool
  has_procs s =
      G.has_proc proc_create_image s
      && G.has_proc proc_destroy_image s
      && G.has_proc proc_image_target s

  -- From the current context on.
  unfoldable pub finish : ℕ → ℕ → ℕ → Io S EglContext
  finish d c f = do
    exts ← state (λ w. G.extensions d w.sys)
    procs ← state (λ w. has_procs w.sys)
    checking procs
    pure (record {
      display = d;
      context = c;
      surface = f;
      has_modifiers = contains (codes "EGL_EXT_image_dma_buf_import_modifiers") exts;
    })

  -- Once the display is initialized.
  unfoldable pub on_display : ℕ → ℕ → Io S EglContext
  on_display egl_window d = do
    bound ← calling G.bind_api
    checking bound
    config ← choose_config d
    c ← obtain context (G.create_context d config ctx_attribs)
    f ← obtain surface (G.create_window_surface d config egl_window)
    current ← calling (G.make_current d (some f) (some c))
    checking current
    finish d c f

  unfoldable pub init : ℕ → ℕ → Io S EglContext
  init wl_display egl_window = do
    d ← choose_display wl_display
    initialize d
    on_display egl_window d

  -- `eglDestroySurface`, `eglDestroyContext` and `eglTerminate`.
  unfoldable pub destroying : Object → ℕ → (S.State → S.State) → Io S (Unit {0})
  destroying k h f = modify λ w. record w { sys = f w.sys; trace = deleted k h ∷ w.trace }

  -- `Drop`. The handles of a context that was made are not null.
  unfoldable pub drop_context : EglContext → Io S (Unit {0})
  drop_context x = do
    _ ← calling (G.make_current x.display none none)
    destroying surface x.surface (G.destroy_surface x.display x.surface)
    destroying context x.context (G.destroy_context x.display x.context)
    destroying display x.display (G.terminate x.display)
