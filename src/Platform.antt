-- ===== src/Platform.antt =====
-- Everything that the crate `common` calls and that is not in the repository: libc and nix, with
-- the kernel behind them, and the constants that rust/common/build.rs reads from system headers.
-- It is a parameter of the model, a machine with an unknown state whose answers are arbitrary.
pub mod Headers
pub mod Descriptors
pub mod Buffers
pub mod Objects
use pub_sub_v4l2_dmabuf_wayl.Base.{ℕ, List, [], ◌∷◌, ◌++◌, Bool, Option, none, some}
use pub_sub_v4l2_dmabuf_wayl.Effect.{
  IoError, os, Run, ret, fail, M, pure, state, ◌>>=◌, ◌>>◌, throw,
}
use pub_sub_v4l2_dmabuf_wayl.V4l2.Structs.{
  V4l2Capability, V4l2Format, V4l2RequestBuffers, V4l2Buffer, V4l2ExportBuffer,
  DmaHeapAllocationData,
}
use pub_sub_v4l2_dmabuf_wayl.Wire.{Endian}
use Headers.{Consts}

-- A `RawFd`: `none` is -1. An `OwnedFd` is a plain number.
abbrev pub RawFd : Type 0
RawFd = Option ℕ

pub data Request : Type 0 where
  querycap s_fmt reqbufs querybuf expbuf qbuf dqbuf streamon streamoff heap_alloc : Request

-- The struct that the request's third argument points to.
abbrev pub Payload : Request → Type 0
Payload querycap = V4l2Capability
Payload s_fmt = V4l2Format
Payload reqbufs = V4l2RequestBuffers
Payload querybuf = V4l2Buffer
Payload expbuf = V4l2ExportBuffer
Payload qbuf = V4l2Buffer
Payload dqbuf = V4l2Buffer
Payload streamon = ℕ
Payload streamoff = ℕ
Payload heap_alloc = DmaHeapAllocationData

-- A call succeeds with a value, or fails and leaves a number for `errno`.
pub data Answer (S A : Type 0) : Type 0 where
  done : A → S → Answer S A
  failed : ℕ → S → Answer S A

pub data OpenFlag : Type 0 where
  o_rdwr o_nonblock o_cloexec : OpenFlag

-- One control message of `recvmsg`: descriptors, already installed in this process, or another.
pub data Cmsg : Type 0 where
  scm_rights : List ℕ → Cmsg
  other_cmsg : Cmsg

pub record Received : Type 0 where
  pub bytes : List ℕ
  pub cmsgs : List Cmsg
  -- `MSG_CTRUNC`, on which nix's `cmsgs()` is an error
  pub truncated : Bool

pub record Platform : Type 1 where
  pub consts : Consts
  pub open consts use *
  -- the byte order of the machine
  pub endian : Endian
  pub State : Type 0
  pub open_file : List ℕ → List OpenFlag → State → Answer State ℕ
  pub close : RawFd → State → Answer State (Unit {0})
  pub ioctl : (r : Request) → RawFd → Payload r → State → Answer State (Payload r)
  -- `select` on one descriptor for reading, with a timeout in seconds
  pub select : RawFd → ℕ → State → Answer State ℕ
  pub socket : State → Answer State ℕ
  pub unix_addr : List ℕ → State → Answer State (List ℕ)
  pub bind : RawFd → List ℕ → State → Answer State (Unit {0})
  pub listen : RawFd → ℕ → State → Answer State (Unit {0})
  pub accept4 : RawFd → State → Answer State ℕ
  pub connect : RawFd → List ℕ → State → Answer State (Unit {0})
  pub remove_file : List ℕ → State → Answer State (Unit {0})
  -- the bytes and the descriptors of one message; the answer is the number of bytes taken
  pub sendmsg : RawFd → List ℕ → List ℕ → State → Answer State ℕ
  pub recvmsg : RawFd → ℕ → ℕ → State → Answer State Received
  -- the number of bytes wanted, and whether `MSG_WAITALL` is given
  pub recv : RawFd → ℕ → Bool → State → Answer State (List ℕ)
  -- the flag `RUNNING`, which a signal handler may clear during any call
  pub running : State → Bool

-- What EGL and GLES make and delete.
pub data Object : Type 0 where
  display context surface shader program vertex_buffer texture : Object

-- What the program has done, as far as the theorems speak of it.
pub data Event : Type 0 where
  opened closed : ℕ → Event
  queued dequeued : RawFd → ℕ → Event
  stream_on stream_off : RawFd → Event
  sent : RawFd → List ℕ → List ℕ → Event
  received : RawFd → List ℕ → Event
  -- an EGL image and the descriptor that it was made of
  imported : ℕ → ℕ → Event
  destroyed : ℕ → Event
  created deleted : Object → ℕ → Event

-- The state of the process: the platform's, `errno`, and the completed calls, the latest first.
pub record World (S : Platform) : Type 0 where
  pub sys : S.State
  pub errno : ℕ
  pub trace : List Event

-- The note of a request with the struct that was passed in and the one that came back.
abbrev pub note_ioctl : (r : Request) → RawFd → Payload r → Payload r → List Event
note_ioctl querycap fd arg p = []
note_ioctl s_fmt fd arg p = []
note_ioctl reqbufs fd arg p = []
note_ioctl querybuf fd arg p = []
note_ioctl expbuf fd arg p = opened p.fd ∷ []
note_ioctl qbuf fd arg p = queued fd arg.index ∷ []
note_ioctl dqbuf fd arg p = dequeued fd p.index ∷ []
note_ioctl streamon fd arg p = stream_on fd ∷ []
note_ioctl streamoff fd arg p = stream_off fd ∷ []
note_ioctl heap_alloc fd arg p = opened p.fd ∷ []

abbrev pub note_close : RawFd → List Event
note_close none = []
note_close (some fd) = closed fd ∷ []

abbrev pub opened_all : List ℕ → List Event
opened_all [] = []
opened_all (fd ∷ fds) = opened fd ∷ opened_all fds

abbrev pub descriptors : List Cmsg → List ℕ
descriptors [] = []
descriptors (scm_rights fds ∷ cs) = fds ++ descriptors cs
descriptors (other_cmsg ∷ cs) = descriptors cs

module _ (S : Platform) where
  abbrev pub Io : Type 0 → Type 0
  Io A = M (World S) A

  -- A call into the platform; `none` is its -1, with `errno` set.
  unfoldable pub syscall :
      {A : Type 0} → (S.State → Answer S.State A) → (A → List Event) → Io (Option A)
  syscall f note w = elim (f w.sys) [
    | done a s ↦ ret (some a) (record w { sys = s; trace = note a ++ w.trace })
    | failed e s ↦ ret none (record w { sys = s; errno = e })
  ]

  -- `return Err(io::Error::last_os_error())`
  abbrev pub last_os_error : {A : Type 0} → Io A
  last_os_error w = fail (os w.errno) w

  -- The result of a call, or an early return with its error: `.map_err(to_io)?` of a nix call.
  abbrev pub checked : {A : Type 0} → Option A → Io A
  checked none w = fail (os w.errno) w
  checked (some a) w = ret a w

  -- A call that gives a descriptor, and one that gives none, with the early return of the error.
  abbrev pub opening : (S.State → Answer S.State ℕ) → Io ℕ
  opening f = syscall f (λ fd. opened fd ∷ []) >>= checked

  abbrev pub calling : {A : Type 0} → (S.State → Answer S.State A) → Io A
  calling f = syscall f (λ _. []) >>= checked

  -- `close`: the descriptor is gone also where the call reports an error.
  unfoldable pub close_fd : RawFd → Io (Unit {0})
  close_fd fd w = elim (S.close fd w.sys) [
    | done u s ↦ ret tt (record w { sys = s; trace = note_close fd ++ w.trace })
    | failed e s ↦ ret tt (record w { sys = s; errno = e; trace = note_close fd ++ w.trace })
  ]

  -- The drop of a vector of `OwnedFd`s, the first first.
  unfoldable pub close_all : List ℕ → Io (Unit {0})
  unfolding close_fd
  close_all [] = pure tt
  close_all (fd ∷ fds) = close_fd (some fd) >> close_all fds

  -- `RUNNING.load(…)`
  abbrev pub is_running : Io Bool
  is_running = state (λ w. S.running w.sys)
