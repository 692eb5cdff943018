-- ===== src/Tests/Messages.antt =====
-- The theorems on rust/common/src/socket.rs, applied on the small machine and on two at which a
-- message arrives, whole and cut short.
use pub_sub_v4l2_dmabuf_wayl.Base.{◌≡◌, refl, [], ◌∷◌, ◌++◌, false, some, arith, length}
use pub_sub_v4l2_dmabuf_wayl.Effect.Triple.{Sat}
use pub_sub_v4l2_dmabuf_wayl.Platform.{
  Platform, World, Received, scm_rights, opened, sent, received,
}
use pub_sub_v4l2_dmabuf_wayl.Platform.Descriptors.{Owns, holding}
use pub_sub_v4l2_dmabuf_wayl.Wire.{little, handshake_bytes}
use pub_sub_v4l2_dmabuf_wayl.Wire.RoundTrip.{length-handshake_bytes}
use pub_sub_v4l2_dmabuf_wayl.V4l2.Ioctl.Termination.{never}
use pub_sub_v4l2_dmabuf_wayl.Socket.{
  idx, send_handshake, recv_handshake, recv_idx, create_listening_socket,
}
use pub_sub_v4l2_dmabuf_wayl.Socket.Ownership.{create_listening_socket-Owns}
use pub_sub_v4l2_dmabuf_wayl.Socket.Transfer.{
  short, send_handshake-trace, recv_handshake-handshake_bytes, recv_idx-to_ne_bytes,
}
use pub_sub_v4l2_dmabuf_wayl.Socket.Handover.{refusing, recv_handshake-Owns, recv_handshake-leaks}
use pub_sub_v4l2_dmabuf_wayl.Tests.{
  machine_with, machine, start_world, nothing_owned, two_buffers, two_buffers-FitsU32,
  whole_message, receiver, receiver_world,
}

send_handshake-trace_example :
    Sat
      (λ _ w'. w'.trace ≡ sent (some 5) (handshake_bytes little two_buffers) (10 ∷ 11 ∷ []) ∷ [])
      (short machine (some 5) (handshake_bytes little two_buffers) (10 ∷ 11 ∷ []) [])
      (send_handshake machine (some 5) two_buffers (10 ∷ 11 ∷ []) start_world)
send_handshake-trace_example =
    send_handshake-trace machine (some 5) two_buffers (10 ∷ 11 ∷ []) start_world

recv_handshake-handshake_bytes_example :
    Sat
      (λ r w'.
        (r ≡ (two_buffers, 6 ∷ 7 ∷ []))
        × (w'.trace
            ≡ opened 6 ∷ opened 7 ∷ received (some 4) (handshake_bytes little two_buffers) ∷ []))
      never
      (recv_handshake receiver (some 4) receiver_world)
recv_handshake-handshake_bytes_example =
    recv_handshake-handshake_bytes receiver (some 4) two_buffers (6 ∷ 7 ∷ []) 2 receiver_world
      two_buffers-FitsU32 refl refl

recv_handshake-Owns_example :
    Sat
      (λ r w'. (length r.1 ≡ r.0.buf_count) × Owns (r.1 ++ []) w'.trace)
      (refusing receiver [] (some 4) whole_message 2 receiver_world refl nothing_owned [])
      (recv_handshake receiver (some 4) receiver_world)
recv_handshake-Owns_example =
    recv_handshake-Owns receiver [] (some 4) whole_message 2 receiver_world refl nothing_owned
      (length-handshake_bytes little two_buffers) refl

-- The same descriptors, with three bytes only.
abbrev part_message : Received
part_message = record {
  bytes = 2 ∷ 0 ∷ 0 ∷ [];
  cmsgs = scm_rights (6 ∷ 7 ∷ []) ∷ [];
  truncated = false;
}

abbrev part_receiver : Platform
part_receiver = machine_with part_message []

abbrev part_world : World part_receiver
part_world = record { sys = 2; errno = 0; trace = [] }

recv_handshake-leaks_example :
    Sat
      (λ _ _. ⊥)
      (refusing part_receiver [] (some 4) part_message 2 part_world refl nothing_owned (6 ∷ 7 ∷ []))
      (recv_handshake part_receiver (some 4) part_world)
recv_handshake-leaks_example =
    recv_handshake-leaks part_receiver [] (some 4) part_message 2 part_world refl nothing_owned refl

recv_idx-to_ne_bytes_example :
    Sat (λ r _. r ≡ idx 1) never (recv_idx receiver (some 4) receiver_world)
recv_idx-to_ne_bytes_example =
    recv_idx-to_ne_bytes receiver (some 4) 1 2 receiver_world (omega arith) refl

create_listening_socket-Owns_example :
    Sat
      (λ fd w'. Owns (fd ∷ []) w'.trace)
      (holding machine [])
      (create_listening_socket machine (47 ∷ []) start_world)
create_listening_socket-Owns_example =
    create_listening_socket-Owns machine [] (47 ∷ []) start_world nothing_owned
