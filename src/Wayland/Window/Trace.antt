-- ===== src/Wayland/Window/Trace.antt =====
-- rust/subscriber/src/wayland.rs, `WaylandWindow::create`: it adds no event to the trace.
use pub_sub_v4l2_dmabuf_wayl.Base.{ℕ, zero, suc, ◌≡◌, List, [], ◌∷◌, Bool, Option, none, some}
use pub_sub_v4l2_dmabuf_wayl.Effect.{ret, fail, other, pure}
use pub_sub_v4l2_dmabuf_wayl.Effect.Triple.{Exits, Sat, Sat-bind, Sat-if, Sat-if_run}
use pub_sub_v4l2_dmabuf_wayl.Platform.{Platform, World, Event}
use pub_sub_v4l2_dmabuf_wayl.Wayland.{AppState, WlEvent, WlRequest, get_registry, Connection}
use pub_sub_v4l2_dmabuf_wayl.Wayland.Window.{
  request, pointer, take_compositor, take_wm_base, surface_requests, dispatching, dispatch_then,
  wait_configured, open_surface, create,
}

module _ (S : Platform) (C : Connection S) (t : List Event) where
  abbrev pub still : Exits (AppState × World S)
  still = record {
    failing = λ _ s. s.1.trace ≡ t;
    panicking = λ _. ⊥;
    spinning = λ s. s.1.trace ≡ t;
  }

  abbrev Still : {A : Type 0} → A → AppState × World S → Type 0
  Still a s = s.1.trace ≡ t

  pointer-trace :
      (f : S.State → Option ℕ × S.State) (s : AppState × World S)
      → s.1.trace ≡ t
      → Sat Still still (pointer S C f s)
  unfolding pointer
  pointer-trace f (st, w) e = by_value (f w.sys).0
    where
      by_value :
          (o : Option ℕ)
          → Sat Still still (elim o [
            | none ↦ fail other (st, record w { sys = (f w.sys).1 })
            | some p ↦ ret p (st, record w { sys = (f w.sys).1 })
          ])
      by_value none = record { at = e }
      by_value (some p) = record { at = e }

  request-trace :
      (rs : List WlRequest) (s : AppState × World S)
      → s.1.trace ≡ t
      → Sat Still still (request S C rs s)
  unfolding request
  request-trace rs s e = record { at = e }

  dispatching-trace :
      (f : S.State → List WlEvent × Bool × S.State) (s : AppState × World S)
      → s.1.trace ≡ t
      → Sat Still still (dispatching S C f s)
  unfolding dispatching
  dispatching-trace f (st, w) e =
      Sat-if_run (f w.sys).1 _ _ (λ _. record { at = e }) (λ _. record { at = e })

  take_compositor-trace :
      (s : AppState × World S) → s.1.trace ≡ t → Sat Still still (take_compositor S C s)
  unfolding take_compositor
  take_compositor-trace (st, w) e = by_value st.compositor
    where
      by_value :
          (o : Option ℕ)
          → Sat Still still (elim o [
            | none ↦ fail other (st, w)
            | some c ↦ ret c (record st { compositor = none }, w)
          ])
      by_value none = record { at = e }
      by_value (some c) = record { at = e }

  take_wm_base-trace :
      (s : AppState × World S) → s.1.trace ≡ t → Sat Still still (take_wm_base S C s)
  unfolding take_wm_base
  take_wm_base-trace (st, w) e = by_value st.wm_base
    where
      by_value :
          (o : Option ℕ)
          → Sat Still still (elim o [
            | none ↦ fail other (st, w)
            | some b ↦ ret b (record st { wm_base = none }, w)
          ])
      by_value none = record { at = e }
      by_value (some b) = record { at = e }

  wait_configured-trace :
      (rounds : ℕ) (s : AppState × World S)
      → s.1.trace ≡ t
      → Sat Still still (wait_configured S C rounds s)
  unfolding wait_configured dispatch_then
  wait_configured-trace zero s e = record { at = e }
  wait_configured-trace (suc rounds) s e =
      Sat-if s.0.configured (pure tt) (dispatch_then S C (wait_configured S C rounds)) s
        (λ _. record { at = e })
        (λ _.
          Sat-bind (dispatching S C C.blocking) _ s (dispatching-trace C.blocking s e)
            λ _ s' e'. wait_configured-trace rounds s' e')

  open_surface-trace :
      (rounds width height : ℕ) (title : List ℕ) (d : ℕ) (s : AppState × World S)
      → s.1.trace ≡ t
      → Sat Still still (open_surface S C rounds width height title d s)
  unfolding open_surface
  open_surface-trace rounds width height title d s e =
      Sat-bind (request S C (surface_requests S C title)) _ s (request-trace _ s e) λ _ s1 e1.
        Sat-bind (wait_configured S C rounds) _ s1 (wait_configured-trace rounds s1 e1) λ _ s2 e2.
          Sat-bind (pointer S C (C.egl_window width height)) _ s2 (pointer-trace _ s2 e2)
            λ _ _ e3. record { at = e3 }

  pub create-trace :
      (rounds width height : ℕ) (title : List ℕ) (s : AppState × World S)
      → s.1.trace ≡ t
      → Sat Still still (create S C rounds width height title s)
  unfolding create
  create-trace rounds width height title s e =
      Sat-bind (pointer S C C.connect) _ s (pointer-trace _ s e) λ d s1 e1.
        Sat-bind (request S C (get_registry ∷ [])) _ s1 (request-trace _ s1 e1) λ _ s2 e2.
          Sat-bind (dispatching S C C.roundtrip) _ s2 (dispatching-trace _ s2 e2) λ _ s3 e3.
            Sat-bind (take_compositor S C) _ s3 (take_compositor-trace s3 e3) λ _ s4 e4.
              Sat-bind (take_wm_base S C) _ s4 (take_wm_base-trace s4 e4)
                λ _ s5 e5. open_surface-trace rounds width height title d s5 e5
