-- ===== src/CommandLine.antt =====
-- What the three programs share in the handling of their command lines, with a constant of
-- rust/common/src/lib.rs. An argument is its bytes.
use pub_sub_v4l2_dmabuf_wayl.Base.{ℕ, List, codes}
use pub_sub_v4l2_dmabuf_wayl.Effect.{other, pure, throw, ◌>>◌}
use pub_sub_v4l2_dmabuf_wayl.Platform.{Platform, Io}

-- `DEFAULT_SOCKET_PATH`
abbrev pub default_socket_path : List ℕ
default_socket_path = codes "/tmp/dma_buf_socket"

-- How the loop over the arguments ends: with the options, with the usage and exit code 2, or with
-- an error.
pub data Outcome (A : Type 0) : Type 0 where
  go : A → Outcome A
  usage : Outcome A
  invalid : Outcome A

-- What `main` comes to, if it does not fail: it returns, or has called `process::exit`.
pub data Ended : Type 0 where
  returned : Ended
  exited : ℕ → Ended

abbrev pub main_with : (S : Platform) {A : Type 0} → (A → Io S (Unit {0})) → Outcome A → Io S Ended
main_with S run (go a) = run a >> pure returned
main_with S run usage = pure (exited 2)
main_with S run invalid = throw other
