-- ===== src/Wayland.antt =====
-- rust/subscriber/src/wayland.rs: `AppState`, its handlers, and `dispatch_pending`. The compositor and
-- the crate wayland-client are parameters; a proxy is the number under which it was bound.
pub mod Events
pub mod Window
use pub_sub_v4l2_dmabuf_wayl.Base.{
  ℕ, List, [], ◌∷◌, ◌++◌, Bool, true, false, not, Option, none, some, leb, if◌then◌else◌,
}
use pub_sub_v4l2_dmabuf_wayl.Effect.{M, ret, pure, ◌>>=◌, ◌>>◌, state}
use pub_sub_v4l2_dmabuf_wayl.Platform.{Platform, World}

pub record AppState : Type 0 where
  pub compositor : Option ℕ
  pub wm_base : Option ℕ
  pub configured : Bool
  pub should_close : Bool

abbrev pub new : AppState
new = record { compositor = none; wm_base = none; configured = false; should_close = false }

-- The interfaces that a global may advertise.
pub data Interface : Type 0 where
  wl_compositor xdg_wm_base other_interface : Interface

pub data WlEvent : Type 0 where
  global : ℕ → Interface → ℕ → WlEvent
  ping : ℕ → WlEvent
  configure : ℕ → WlEvent
  close : WlEvent
  other_event : WlEvent

pub data WlRequest : Type 0 where
  bind : ℕ → Interface → ℕ → WlRequest
  pong : ℕ → WlRequest
  ack_configure : ℕ → WlRequest
  get_registry create_surface get_xdg_surface get_toplevel commit : WlRequest
  -- with the text
  set_title set_app_id : List ℕ → WlRequest

abbrev min : ℕ → ℕ → ℕ
min a b = if leb a b then a else b

-- The four `Dispatch::event`s: the request that is sent in answer, and the state after.
unfoldable pub event : WlEvent → AppState → List WlRequest × AppState
event (global name wl_compositor version) st =
    (bind name wl_compositor (min version 4) ∷ [], record st { compositor = some name })
event (global name xdg_wm_base version) st =
    (bind name xdg_wm_base 1 ∷ [], record st { wm_base = some name })
event (global name other_interface version) st = ([], st)
event (ping serial) st = (pong serial ∷ [], st)
event (configure serial) st = (ack_configure serial ∷ [], record st { configured = true })
event close st = ([], record st { should_close = true })
event other_event st = ([], st)

-- The events of a queue, the first first.
unfoldable pub events : List WlEvent → AppState → List WlRequest × AppState
unfolding event
events [] st = ([], st)
events (e ∷ es) st = ((event e st).0 ++ (events es (event e st).1).0, (events es (event e st).1).1)

-- The connection: `flush` with the requests so far, and what `EventQueue::dispatch_pending`,
-- `roundtrip` and `blocking_dispatch` find in the queue, with whether they end without an error.
pub record Connection (S : Platform) : Type 0 where
  -- `Connection::connect_to_env`, with the pointer to the display
  pub connect : S.State → Option ℕ × S.State
  pub flush : S.State → S.State
  pub pending : S.State → List WlEvent × Bool × S.State
  pub roundtrip : S.State → List WlEvent × Bool × S.State
  pub blocking : S.State → List WlEvent × Bool × S.State
  pub send : List WlRequest → S.State → S.State
  -- `WlEglSurface::new` of the surface with a width and a height, with its pointer
  pub egl_window : ℕ → ℕ → S.State → Option ℕ × S.State

module _ (S : Platform) (C : Connection S) where
  unfoldable pub dispatch_queue : M (AppState × World S) Bool
  unfolding events
  dispatch_queue (st, w) =
      let (es, fine, s) = C.pending w.sys in
      let (rs, st') = events es st in
      ret (if fine then not st'.should_close else false) (st', record w { sys = C.send rs s })

  unfoldable pub dispatch_pending : M (AppState × World S) Bool
  unfolding dispatch_queue
  dispatch_pending (st, w) =
      if st.should_close
      then ret false (st, w)
      else dispatch_queue (st, record w { sys = C.flush w.sys })
