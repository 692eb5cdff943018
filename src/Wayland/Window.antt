-- ===== src/Wayland/Window.antt =====
-- rust/subscriber/src/wayland.rs: `WaylandWindow::create`. The state of the handlers stands beside the
-- world; the proxies of the one surface are not told apart.
pub mod Configured
pub mod Trace
use pub_sub_v4l2_dmabuf_wayl.Base.{ℕ, zero, suc, List, [], ◌∷◌, Option, none, some, codes}
use pub_sub_v4l2_dmabuf_wayl.Effect.{
  Run, ret, fail, spin, other, M, pure, ◌>>=◌, ◌>>◌, modify, state,
}
use pub_sub_v4l2_dmabuf_wayl.Base.{Bool, if◌then◌else◌}
use pub_sub_v4l2_dmabuf_wayl.Platform.{Platform, World}
use pub_sub_v4l2_dmabuf_wayl.Wayland.{
  AppState, WlEvent, WlRequest, get_registry, create_surface, get_xdg_surface, get_toplevel,
  set_title, set_app_id, commit, events, Connection,
}

pub record Window : Type 0 where
  pub display_ptr : ℕ
  pub egl_window_ptr : ℕ
  pub width : ℕ
  pub height : ℕ

module _ (S : Platform) (C : Connection S) where
  unfoldable pub request : List WlRequest → M (AppState × World S) (Unit {0})
  request rs = modify λ (st, w). (st, record w { sys = C.send rs w.sys })

  -- A call that gives a pointer, with the early return where it fails.
  unfoldable pub pointer : (S.State → Option ℕ × S.State) → M (AppState × World S) ℕ
  pointer f (st, w) = elim (f w.sys).0 [
    | none ↦ fail other (st, record w { sys = (f w.sys).1 })
    | some p ↦ ret p (st, record w { sys = (f w.sys).1 })
  ]

  -- The handlers of the events that a call finds, and the early return of its error.
  unfoldable pub dispatching :
      (S.State → List WlEvent × Bool × S.State) → M (AppState × World S) (Unit {0})
  dispatching f (st, w) =
      let (es, fine, s) = f w.sys in
      let (rs, st') = events es st in
      if fine
      then ret tt (st', record w { sys = C.send rs s })
      else fail other (st', record w { sys = C.send rs s })

  -- `.take().ok_or(…)?`
  unfoldable pub take_compositor : M (AppState × World S) ℕ
  take_compositor (st, w) = elim st.compositor [
    | none ↦ fail other (st, w)
    | some c ↦ ret c (record st { compositor = none }, w)
  ]

  unfoldable pub take_wm_base : M (AppState × World S) ℕ
  take_wm_base (st, w) = elim st.wm_base [
    | none ↦ fail other (st, w)
    | some b ↦ ret b (record st { wm_base = none }, w)
  ]

  unfoldable pub dispatch_then :
      M (AppState × World S) (Unit {0}) → M (AppState × World S) (Unit {0})
  dispatch_then again = dispatching C.blocking >> again

  -- The loop until the surface is configured, for so many rounds at most.
  unfoldable pub wait_configured : ℕ → M (AppState × World S) (Unit {0})
  unfolding dispatch_then
  wait_configured zero = spin
  wait_configured (suc rounds) = do
    on ← state (λ (st, w). st.configured)
    if on then pure tt else dispatch_then (wait_configured rounds)

  abbrev pub surface_requests : List ℕ → List WlRequest
  surface_requests title =
      create_surface
      ∷ get_xdg_surface
      ∷ get_toplevel
      ∷ set_title title
      ∷ set_app_id (codes "dmabuf.subscriber")
      ∷ commit
      ∷ []

  -- Once the globals are there.
  unfoldable pub open_surface : ℕ → ℕ → ℕ → List ℕ → ℕ → M (AppState × World S) Window
  open_surface rounds width height title display = do
    request (surface_requests title)
    wait_configured rounds
    p ← pointer (C.egl_window width height)
    pure (record { display_ptr = display; egl_window_ptr = p; width = width; height = height })

  unfoldable pub create : ℕ → ℕ → ℕ → List ℕ → M (AppState × World S) Window
  create rounds width height title = do
    display ← pointer C.connect
    request (get_registry ∷ [])
    dispatching C.roundtrip
    _ ← take_compositor
    _ ← take_wm_base
    open_surface rounds width height title display
