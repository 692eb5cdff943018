-- ===== src/Tests/Window.antt =====
-- The theorems on the window, on the objects of EGL and GLES, and on the subscriber's whole run.
use pub_sub_v4l2_dmabuf_wayl.Base.{
  ℕ, ◌≡◌, refl, ap, subst, some, List, [], ◌∷◌, true, false, ◌==◌, if◌then◌else◌, arith, length,
  codes,
}
use pub_sub_v4l2_dmabuf_wayl.Effect.Triple.{Sat}
use pub_sub_v4l2_dmabuf_wayl.Platform.{Answer, done, failed, Received}
use pub_sub_v4l2_dmabuf_wayl.Platform.Objects.{Keeps}
use pub_sub_v4l2_dmabuf_wayl.Wire.{little, handshake_size}
use pub_sub_v4l2_dmabuf_wayl.Wire.RoundTrip.{length-handshake_bytes}
use pub_sub_v4l2_dmabuf_wayl.Socket.Arrival.{Whole}
use pub_sub_v4l2_dmabuf_wayl.Egl.Context as Context
use pub_sub_v4l2_dmabuf_wayl.Egl.Resources.Display.{held}
use pub_sub_v4l2_dmabuf_wayl.Egl.Resources.Creation.{after_making, breaking_off, init-trace}
use pub_sub_v4l2_dmabuf_wayl.Wayland.{
  new, Connection, close, events, WlRequest, get_registry, create_surface, global, configure,
  wl_compositor, xdg_wm_base,
}
use pub_sub_v4l2_dmabuf_wayl.Wayland.Window.{create}
use pub_sub_v4l2_dmabuf_wayl.Wayland.Window.Configured.{
  already, dispatched, Serves, Sized, Ready, nowhere, create-Ready,
}
use pub_sub_v4l2_dmabuf_wayl.Subscriber.Main.{subscriber_main}
use pub_sub_v4l2_dmabuf_wayl.Subscriber.Main.Balance.{straying, subscriber_main-Keeps}
use pub_sub_v4l2_dmabuf_wayl.Tests.{two_buffers, whole_message, receiver, receiver_world}
use pub_sub_v4l2_dmabuf_wayl.Tests.Viewer.{gpu, compositor}

nothing_kept : Keeps [] [] []
nothing_kept = record { owned = record { at = λ fd. refl }; at = λ k i. refl }

-- What has been asked for last: the registry, or a surface.
abbrev asked : List WlRequest → ℕ → ℕ
asked (get_registry ∷ rest) n = 1
asked (create_surface ∷ rest) n = 2
asked _ n = n

-- It advertises its globals once the registry has been asked for, and configures a surface once it
-- has been asked for one.
abbrev answering : Connection receiver
answering = record compositor {
  send = asked;
  roundtrip = λ n.
      if n == 1
      then (global 1 wl_compositor 6 ∷ global 2 xdg_wm_base 2 ∷ [], true, n)
      else ([], true, n);
  blocking = λ n. if n == 2 then (configure 8 ∷ [], true, n) else ([], true, n);
}

answering-Serves : Serves answering 1
unfolding events
answering-Serves = record {
  connects = λ s. tt;
  advertises = λ s. (refl, tt, tt);
  configures = λ st s title app_id. dispatched refl (already refl);
  opens = λ width height s. tt;
}

create-Ready_example :
    Sat
      (λ win s.
        (some 1 ≡ some win.display_ptr)
        × Sized receiver answering 640 480 win
        × Ready receiver answering [] s)
      (nowhere receiver answering [])
      (create receiver answering 2 640 480 [] (new, receiver_world))
create-Ready_example =
    create-Ready receiver answering 1 2 640 480 [] receiver_world answering-Serves (omega arith)

init-trace_example :
    Sat
      (λ x w'. w'.trace ≡ after_making (held x) [])
      (breaking_off receiver [])
      (Context.init receiver gpu 1 4 receiver_world)
init-trace_example = init-trace receiver gpu 1 4 receiver_world

-- What has arrived.
message_of : Answer ℕ Received → Received
message_of (done msg s) = msg
message_of (failed e s) = whole_message

receiver-Whole : Whole receiver
unfolding message_of
receiver-Whole = record {
  at = λ sock s s' msg e.
      subst (λ (m : Received). (length m.bytes ≡ handshake_size) × (m.truncated ≡ false))
        (ap message_of e) (length-handshake_bytes little two_buffers, refl);
}

-- The window is closed after the first frame.
abbrev closing : Connection receiver
closing = record compositor { pending = λ n. (close ∷ [], true, n) }

abbrev path_args : List (List ℕ)
path_args = codes "--socket" ∷ codes "/tmp/s" ∷ []

subscriber_main-Keeps_example :
    Sat
      (λ _ w'. Keeps [] [] w'.trace)
      (straying receiver [] [])
      (subscriber_main receiver gpu closing 3 path_args receiver_world)
subscriber_main-Keeps_example =
    subscriber_main-Keeps receiver gpu closing 3 receiver-Whole [] path_args [] receiver_world
      nothing_kept
