-- ===== src/Wayland/Window/Configured.antt =====
-- rust/subscriber/src/wayland.rs, `WaylandWindow::create`: when it returns.
use pub_sub_v4l2_dmabuf_wayl.Base.{
  ℕ, zero, suc, ◌<◌, ◌≡◌, refl, ap, sym, subst, ◌∙◌, List, [], ◌∷◌, Bool, true, false, Option, none,
  some, arith,
}
use pub_sub_v4l2_dmabuf_wayl.Effect.{Run, ret, fail, other, pure, ◌>>=◌}
use pub_sub_v4l2_dmabuf_wayl.Effect.Triple.{Exits, Sat, Sat-bind, Sat-if, Sat-if_run, Sat-weaken}
use pub_sub_v4l2_dmabuf_wayl.Platform.{Platform, World, Event}
use pub_sub_v4l2_dmabuf_wayl.Wayland.{
  AppState, new, WlEvent, WlRequest, get_registry, create_surface, get_xdg_surface, get_toplevel,
  set_title, set_app_id, commit, events, Connection,
}
use pub_sub_v4l2_dmabuf_wayl.Wayland.Window.{
  Window, request, pointer, take_compositor, take_wm_base, surface_requests, dispatching,
  dispatch_then, wait_configured, open_surface, create,
}

differ : {b : Bool} → b ≡ true → b ≡ false → ⊥
differ p q = cc

-- A value, and not nothing.
abbrev pub IsThere : {A : Type 0} → Option A → Type 0
IsThere none = ⊥
IsThere (some a) = Unit

-- The state after the events that a call finds, and what the platform makes of the requests.
abbrev after :
    {S : Platform} → Connection S → List WlEvent × Bool × S.State → AppState → AppState × S.State
after C (es, fine, s) st = ((events es st).1, C.send (events es st).0 s)

-- The connection brings the configure event within so many dispatches, none of which fails.
pub data Soon {S : Platform} (C : Connection S) : ℕ → AppState × S.State → Type 0 where
  already : {n : ℕ} {s : AppState × S.State} → s.0.configured ≡ true → Soon C n s
  dispatched :
      {n : ℕ} {s : AppState × S.State}
      → (C.blocking s.1).1 ≡ true
      → Soon C n (after C (C.blocking s.1) s.0)
      → Soon C (suc n) s

module _ (S : Platform) (C : Connection S) (t : List Event) where
  abbrev pub Ready : AppState × World S → Type 0
  Ready s = (s.0.configured ≡ true) × (s.1.trace ≡ t)

  -- No other way out.
  abbrev pub nowhere : Exits (AppState × World S)
  nowhere = record { failing = λ _ _. ⊥; panicking = λ _. ⊥; spinning = λ _. ⊥ }

  -- Where a dispatch does not fail, its events have been handled and the rest is untouched.
  dispatching-after :
      (f : S.State → List WlEvent × Bool × S.State) (st : AppState) (w : World S)
      (P : AppState × S.State → Type 0)
      → (f w.sys).1 ≡ true
      → P (after C (f w.sys) st)
      → w.trace ≡ t
      → Sat (λ _ s. P (s.0, s.1.sys) × (s.1.trace ≡ t)) nowhere (dispatching S C f (st, w))
  unfolding dispatching
  dispatching-after f st w P fine p e =
      Sat-if_run (f w.sys).1 _ _ (λ _. record { at = (p, e) }) (λ n. absurd (differ fine n))

  wait_configured-Ready :
      (n rounds : ℕ) (st : AppState) (w : World S)
      → Soon C n (st, w.sys)
      → n < rounds
      → w.trace ≡ t
      → Sat (λ _ s. Ready s) nowhere (wait_configured S C rounds (st, w))
  unfolding wait_configured dispatch_then
  wait_configured-Ready n zero st w h l e = absurd (omega (arith, l))
  wait_configured-Ready n (suc rounds) st w h l e =
      Sat-if st.configured (pure tt) (dispatch_then S C (wait_configured S C rounds)) (st, w)
        (λ c. record { at = (c, e) })
        (λ c. again (λ m st' w'. wait_configured-Ready m rounds st' w') n h l c)
    where
      again :
          ((m : ℕ) (st' : AppState) (w' : World S)
            → Soon C m (st', w'.sys)
            → m < rounds
            → w'.trace ≡ t
            → Sat (λ _ s. Ready s) nowhere (wait_configured S C rounds (st', w')))
          → (m : ℕ) → Soon C m (st, w.sys)
          → m < suc rounds
          → st.configured ≡ false
          → Sat (λ _ s. Ready s) nowhere (dispatch_then S C (wait_configured S C rounds) (st, w))
      again rest m (already c) l c' = absurd (differ c c')
      again rest (suc m) (dispatched f k) l c' =
          Sat-bind (dispatching S C C.blocking) _ (st, w)
            (dispatching-after C.blocking st w (Soon C m) f k e)
            λ _ s (k', e'). rest m s.0 s.1 k' (omega (arith, l)) e'

  -- A pointer that is there leaves the window's state as it was.
  pointer-there :
      (f : S.State → Option ℕ × S.State) (st : AppState) (w : World S)
      → IsThere (f w.sys).0
      → w.trace ≡ t
      → Sat
          (λ p s. ((f w.sys).0 ≡ some p) × (s.0 ≡ st) × (s.1.trace ≡ t))
          nowhere
          (pointer S C f (st, w))
  unfolding pointer
  pointer-there f st w there e = by_value (f w.sys).0 there refl
    where
      by_value :
          (o : Option ℕ)
          → IsThere o
          → (f w.sys).0 ≡ o
          → Sat
              (λ p (s : AppState × World S). ((f w.sys).0 ≡ some p) × (s.0 ≡ st) × (s.1.trace ≡ t))
              nowhere
              (elim o [
                | none ↦ fail other (st, record w { sys = (f w.sys).1 })
                | some p ↦ ret p (st, record w { sys = (f w.sys).1 })
              ])
      by_value none h q = absurd h
      by_value (some p) h q = record { at = (q, refl, e) }

  -- What follows requests begins where the connection has them.
  request-then :
      {A : Type 0} {Q : A → AppState × World S → Type 0} (rs : List WlRequest)
      (f : Unit {0} → AppState × World S → Run (AppState × World S) A) (st : AppState) (w : World S)
      → Sat Q nowhere (f tt (st, record w { sys = C.send rs w.sys }))
      → Sat Q nowhere ((request S C rs >>= f) (st, w))
  unfolding request
  request-then rs f st w h = h

  take_compositor-there :
      (c b : Option ℕ) (x y : Bool) (w : World S)
      → IsThere c
      → w.trace ≡ t
      → Sat
          (λ _ s. (s.0.wm_base ≡ b) × (s.1.trace ≡ t))
          nowhere
          (take_compositor S C
            (record { compositor = c; wm_base = b; configured = x; should_close = y }, w))
  unfolding take_compositor
  take_compositor-there none b x y w h e = absurd h
  take_compositor-there (some c) b x y w h e = record { at = (refl, e) }

  take_wm_base-there :
      (c b : Option ℕ) (x y : Bool) (w : World S)
      → IsThere b
      → w.trace ≡ t
      → Sat
          (λ _ s. s.1.trace ≡ t)
          nowhere
          (take_wm_base S C
            (record { compositor = c; wm_base = b; configured = x; should_close = y }, w))
  unfolding take_wm_base
  take_wm_base-there c none x y w h e = absurd h
  take_wm_base-there c (some b) x y w h e = record { at = e }

-- A connection on which nothing fails: it is there; both globals are advertised at the first
-- roundtrip once the registry has been asked for; once a surface has been created, made a toplevel
-- with a title and an id, and committed, it is configured within so many dispatches; and its window
-- for EGL is made.
pub record Serves {S : Platform} (C : Connection S) (n : ℕ) : Type 0 where
  pub connects : (s : S.State) → IsThere (C.connect s).0
  pub advertises :
      (s : S.State)
      → let asked = C.roundtrip (C.send (get_registry ∷ []) s) in
        (asked.1 ≡ true)
        × IsThere (events asked.0 new).1.compositor
        × IsThere (events asked.0 new).1.wm_base
  pub configures :
      (st : AppState) (s : S.State) (title app_id : List ℕ)
      → Soon C n (
        st,
        C.send
            (create_surface
              ∷ get_xdg_surface
              ∷ get_toplevel
              ∷ set_title title
              ∷ set_app_id app_id
              ∷ commit
              ∷ [])
            s,
      )
  pub opens : (width height : ℕ) (s : S.State) → IsThere (C.egl_window width height s).0

-- The window for EGL is one that was made of this size, and the window says so.
abbrev pub Sized : (S : Platform) → Connection S → ℕ → ℕ → Window → Type 0
Sized S C width height win =
    (win.width ≡ width)
    × (win.height ≡ height)
    × ((s : S.State) × ((C.egl_window width height s).0 ≡ some win.egl_window_ptr))

module _ (S : Platform) (C : Connection S) (t : List Event) (n : ℕ) (serves : Serves C n) where
  abbrev Made : ℕ → ℕ → ℕ → Window → AppState × World S → Type 0
  Made width height d win s = (win.display_ptr ≡ d) × Sized S C width height win × Ready S C t s

  open_surface-Ready :
      (rounds width height : ℕ) (title : List ℕ) (d : ℕ) (st : AppState) (w : World S)
      → n < rounds
      → w.trace ≡ t
      → Sat
          (Made width height d)
          (nowhere S C t)
          (open_surface S C rounds width height title d (st, w))
  unfolding open_surface
  open_surface-Ready rounds width height title d st w l e =
      let asked : World S = record w { sys = C.send (surface_requests S C title) w.sys } in
      request-then S C t (surface_requests S C title) _ st w (
        Sat-bind (wait_configured S C rounds) _ (st, asked)
          (wait_configured-Ready S C t n rounds st asked (serves.configures st w.sys title _) l e)
          λ _ s2 (c, e2).
            Sat-bind (pointer S C (C.egl_window width height)) _ s2
              (pointer-there S C t _ s2.0 s2.1 (serves.opens width height s2.1.sys) e2)
              λ p s3 (made, q, e3). record {
                at = (
                  refl,
                  (refl, refl, (s2.1.sys, made)),
                  (ap (λ (x : AppState). x.configured) q ∙ c, e3),
                );
              })

  globals-Ready :
      (rounds width height : ℕ) (title : List ℕ) (d : ℕ) (st : AppState) (w : World S)
      → n < rounds
      → IsThere st.compositor
      → IsThere st.wm_base
      → w.trace ≡ t
      → Sat (Made width height d) (nowhere S C t) (
          (take_compositor S C >>= λ _.
          take_wm_base S C >>= λ _. open_surface S C rounds width height title d)
            (st, w))
  globals-Ready rounds width height title d st w l c b e =
      Sat-bind (take_compositor S C) _ (st, w)
        (take_compositor-there S C t st.compositor st.wm_base st.configured st.should_close w c e)
        λ _ s1 (q, e1).
          Sat-bind (take_wm_base S C) _ s1
            (take_wm_base-there S C t s1.0.compositor s1.0.wm_base s1.0.configured s1.0.should_close
              s1.1 (subst IsThere (sym q) b) e1)
            λ _ s2 e2. open_surface-Ready rounds width height title d s2.0 s2.1 l e2

module _ (S : Platform) (C : Connection S) where
  -- If nothing fails on the connection and the surface is configured within fewer dispatches than
  -- there are rounds, once the registry and then the surface have been asked for, then the window is
  -- created, of the given size and with its window for EGL made in that size; its surface is
  -- configured, its display is the one connected to, and no event of the trace has been added.
  pub create-Ready :
      (n rounds width height : ℕ) (title : List ℕ) (w : World S)
      → Serves C n
      → n < rounds
      → Sat
          (λ win s.
            ((C.connect w.sys).0 ≡ some win.display_ptr)
            × Sized S C width height win
            × Ready S C w.trace s)
          (nowhere S C w.trace)
          (create S C rounds width height title (new, w))
  unfolding create
  create-Ready n rounds width height title w serves l =
      Sat-bind (pointer S C C.connect) _ (new, w)
        (pointer-there S C w.trace _ new w (serves.connects w.sys) refl)
        λ d s1 (there, q1, e1).
          let asked : World S = record s1.1 { sys = C.send (get_registry ∷ []) s1.1.sys } in
          let shown = serves.advertises s1.1.sys in
          request-then S C w.trace (get_registry ∷ []) _ s1.0 s1.1 (
            Sat-bind (dispatching S C C.roundtrip) _ (s1.0, asked)
              (subst
                (λ st.
                  Sat (λ _ s. HasGlobals (s.0, s.1.sys) × (s.1.trace ≡ w.trace))
                    (nowhere S C w.trace) (dispatching S C C.roundtrip (st, asked)))
                (sym q1)
                (dispatching-after S C w.trace C.roundtrip new asked HasGlobals shown.0
                  (shown.1, shown.2) e1))
              λ _ s3 (g, e3).
                Sat-weaken {Y = nowhere S C w.trace} _
                  (globals-Ready S C w.trace n serves rounds width height title d s3.0 s3.1 l g.0
                    g.1 e3)
                  (λ win _ (same, made, ready). (there ∙ ap some (sym same), made, ready))
                  (λ _ _ h. h) (λ _ h. h) (λ _ h. h))
    where
      HasGlobals : AppState × S.State → Type 0
      HasGlobals s = IsThere s.0.compositor × IsThere s.0.wm_base
