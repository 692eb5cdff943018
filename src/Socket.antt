-- ===== src/Socket.antt =====
-- rust/common/src/socket.rs: the Unix socket between publisher and subscriber. A function that
-- holds an `OwnedFd` closes it on an early return.
pub mod Ownership
pub mod Transfer
pub mod Handover
pub mod Arrival
pub mod Quiet
pub mod Steady
use pub_sub_v4l2_dmabuf_wayl.Base.{
  ℕ, List, [], ◌∷◌, ◌++◌, Bool, true, false, Option, none, some, ◌==◌, if◌then◌else◌, not, length,
  take,
}
use pub_sub_v4l2_dmabuf_wayl.Effect.{
  IoError, os, other, unexpected_eof, pure, state, throw, ◌>>=◌, ◌>>◌, guarded,
}
use pub_sub_v4l2_dmabuf_wayl.Platform.{
  Platform, World, Io, RawFd, Event, opened, sent, received, opened_all, Received, Cmsg,
  descriptors, syscall, checked, opening, calling, close_fd, close_all,
}
use pub_sub_v4l2_dmabuf_wayl.Wire.{
  Handshake, to_ne_bytes, u32_at, handshake_bytes, handshake_of, handshake_size,
}

pub data RecvIdx : Type 0 where
  idx : ℕ → RecvIdx
  peer_closed : RecvIdx
  recv_err : IoError → RecvIdx

module _ (S : Platform) where
  bind_and_listen : ℕ → List ℕ → Io S (Unit {0})
  bind_and_listen fd path = do
    addr ← calling S (S.unix_addr path)
    _ ← calling S (S.bind (some fd) addr)
    calling S (S.listen (some fd) 1)

  unfoldable pub create_listening_socket : List ℕ → Io S ℕ
  unfolding bind_and_listen
  create_listening_socket path = do
    _ ← syscall S (S.remove_file path) (λ _. [])
    fd ← opening S S.socket
    guarded (close_fd S (some fd)) (bind_and_listen fd path)
    pure fd

  unfoldable pub accept_connection : ℕ → Io S ℕ
  accept_connection listen_fd = opening S (S.accept4 (some listen_fd))

  connect_address : ℕ → List ℕ → Io S (Unit {0})
  connect_address fd path = do
    addr ← calling S (S.unix_addr path)
    calling S (S.connect (some fd) addr)

  unfoldable pub connect_to_socket : List ℕ → Io S ℕ
  unfolding connect_address
  connect_to_socket path = do
    fd ← opening S S.socket
    guarded (close_fd S (some fd)) (connect_address fd path)
    pure fd

  -- `sendmsg`, which takes so many of the bytes; the descriptors go with the first.
  abbrev pub send_bytes : RawFd → List ℕ → List ℕ → Io S ℕ
  send_bytes sock_fd bytes fds =
      syscall S (S.sendmsg sock_fd bytes fds) (λ n. sent sock_fd (take n bytes) fds ∷ [])
      >>= checked S

  -- `recv`, with the early return of its error.
  abbrev pub recv_bytes : RawFd → ℕ → Bool → Io S (List ℕ)
  recv_bytes sock_fd n all =
      syscall S (S.recv sock_fd n all) (λ bytes. received sock_fd bytes ∷ []) >>= checked S

  -- `recvmsg`, with the early return of its error. Each descriptor of the message is open then.
  abbrev pub note_received : RawFd → Received → List Event
  note_received sock_fd msg =
      opened_all (descriptors msg.cmsgs) ++ (received sock_fd msg.bytes ∷ [])

  abbrev pub recv_message : RawFd → ℕ → ℕ → Io S Received
  recv_message sock_fd n room =
      syscall S (S.recvmsg sock_fd n room) (note_received sock_fd) >>= checked S

  unfoldable pub send_handshake : RawFd → Handshake → List ℕ → Io S (Unit {0})
  send_handshake sock_fd hs fds = do
    n ← send_bytes sock_fd (handshake_bytes S.endian hs) fds
    if n == handshake_size then pure tt else throw other

  -- The ancillary buffer has room for 32 descriptors.
  abbrev pub max_fds : ℕ
  max_fds = 32

  -- The descriptors that the code makes `OwnedFd`s of: none if `msg.cmsgs()` is an error.
  abbrev pub owned_fds : Received → List ℕ
  owned_fds msg = if msg.truncated then [] else descriptors msg.cmsgs

  -- The test of the count; the vector is dropped if it fails.
  check_count : Handshake → List ℕ → Io S (Handshake × List ℕ)
  check_count hs fds =
      if length fds == hs.buf_count then pure (hs, fds) else (close_all S fds >> throw other)

  unfoldable pub recv_handshake : RawFd → Io S (Handshake × List ℕ)
  unfolding check_count
  recv_handshake sock_fd = do
    msg ← recv_message sock_fd handshake_size max_fds
    if length msg.bytes == handshake_size
        then check_count (handshake_of S.endian msg.bytes) (owned_fds msg)
        else throw other

  unfoldable pub send_idx : RawFd → ℕ → Io S (Unit {0})
  send_idx sock_fd i = do
    n ← send_bytes sock_fd (to_ne_bytes S.endian i) []
    if n == 4 then pure tt else throw other

  -- What four bytes, or fewer, are read as.
  abbrev pub read_idx : List ℕ → RecvIdx
  read_idx bytes =
      if length bytes == 0
      then peer_closed
      else if length bytes == 4
      then idx (u32_at S.endian bytes 0)
      else recv_err other

  unfoldable pub recv_idx : RawFd → Io S RecvIdx
  recv_idx sock_fd = do
    r ← syscall S (S.recv sock_fd 4 true) (λ bytes. received sock_fd bytes ∷ [])
    elim r [ none ↦ state (λ w. recv_err (os w.errno)) | some bytes ↦ pure (read_idx bytes) ]

  unfoldable pub send_ack : RawFd → Io S (Unit {0})
  send_ack sock_fd = do _ ← send_bytes sock_fd (1 ∷ []) []; pure tt

  -- The byte itself is not looked at.
  unfoldable pub wait_for_ack : RawFd → Io S (Unit {0})
  wait_for_ack sock_fd = do
    bytes ← recv_bytes sock_fd 1 false
    if length bytes == 0 then throw unexpected_eof else pure tt
