-- ===== src/Wayland/Events.antt =====
-- rust/subscriber/src/wayland.rs, the handlers: what they make of a queue of events.
use pub_sub_v4l2_dmabuf_wayl.Base.{
  ℕ, ◌≡◌, refl, ap, sym, ◌∙◌, List, [], ◌∷◌, Bool, true, false, ◌||◌,
}
use pub_sub_v4l2_dmabuf_wayl.Wayland.{
  AppState, wl_compositor, xdg_wm_base, other_interface, WlEvent, global, ping, configure, close,
  other_event, WlRequest, pong, ack_configure, event, events,
}

-- The answers that the compositor waits for: to each ping and to each configure, by its serial.
pub data Reply : Type 0 where
  pinged configured_with : ℕ → Reply

abbrev pub due : List WlEvent → List Reply
due [] = []
due (ping serial ∷ es) = pinged serial ∷ due es
due (configure serial ∷ es) = configured_with serial ∷ due es
due (_ ∷ es) = due es

abbrev pub replies : List WlRequest → List Reply
replies [] = []
replies (pong serial ∷ rs) = pinged serial ∷ replies rs
replies (ack_configure serial ∷ rs) = configured_with serial ∷ replies rs
replies (_ ∷ rs) = replies rs

abbrev pub asks_to_close : List WlEvent → Bool
asks_to_close [] = false
asks_to_close (close ∷ es) = true
asks_to_close (_ ∷ es) = asks_to_close es

-- Each ping is answered by a pong and each configure by an ack, with its own serial, in the order in
-- which they came, and nothing else is answered so.
pub events-replies : (es : List WlEvent) (st : AppState) → replies (events es st).0 ≡ due es
unfolding events event
events-replies [] st = refl
events-replies (global name wl_compositor version ∷ es) st = events-replies es _
events-replies (global name xdg_wm_base version ∷ es) st = events-replies es _
events-replies (global name other_interface version ∷ es) st = events-replies es st
events-replies (ping serial ∷ es) st = ap (λ rs. pinged serial ∷ rs) (events-replies es st)
events-replies (configure serial ∷ es) st =
    ap (λ rs. configured_with serial ∷ rs) (events-replies es _)
events-replies (close ∷ es) st = events-replies es _
events-replies (other_event ∷ es) st = events-replies es st

or_true : (b : Bool) → (b || true) ≡ true
or_true true = refl
or_true false = refl

or_false : (b : Bool) → (b || false) ≡ b
or_false true = refl
or_false false = refl

-- After a queue of events the window is to close exactly if it was to close before, or one of the
-- events asks for it.
pub events-should_close :
    (es : List WlEvent) (st : AppState)
    → (events es st).1.should_close ≡ (st.should_close || asks_to_close es)
unfolding events event
events-should_close [] st = sym (or_false st.should_close)
events-should_close (global name wl_compositor version ∷ es) st = events-should_close es _
events-should_close (global name xdg_wm_base version ∷ es) st = events-should_close es _
events-should_close (global name other_interface version ∷ es) st = events-should_close es st
events-should_close (ping serial ∷ es) st = events-should_close es st
events-should_close (configure serial ∷ es) st = events-should_close es _
events-should_close (close ∷ es) st = events-should_close es _ ∙ sym (or_true st.should_close)
events-should_close (other_event ∷ es) st = events-should_close es st
