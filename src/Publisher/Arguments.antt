-- ===== src/Publisher/Arguments.antt =====
-- rust/publisher/src/main.rs and rust/publisher/src/publisher_dma.rs: the loops over the command line.
-- An argument is its bytes.
pub mod Settings
pub mod Programs
use pub_sub_v4l2_dmabuf_wayl.Base.{
  ℕ, List, [], ◌∷◌, Bool, Option, none, some, if◌then◌else◌, codes, same_text, parse_u32,
}
use pub_sub_v4l2_dmabuf_wayl.Platform.{Platform, World, Io}
use pub_sub_v4l2_dmabuf_wayl.Platform.Headers.{Consts}
use pub_sub_v4l2_dmabuf_wayl.CommandLine.{
  default_socket_path, Outcome, go, usage, invalid, Ended, main_with,
}
use pub_sub_v4l2_dmabuf_wayl.Publisher.{Options, publisher, publisher_dma}

pub data Flag : Type 0 where
  device_flag width_flag height_flag socket_flag heap_flag bufs_flag : Flag
  yuyv_flag nv12_flag unknown_flag : Flag

-- The patterns of the `match` that both programs have.
abbrev common_flag : List ℕ → Flag
common_flag a =
    if same_text a (codes "--device")
    then device_flag
    else if same_text a (codes "--width")
    then width_flag
    else if same_text a (codes "--height")
    then height_flag
    else if same_text a (codes "--socket")
    then socket_flag
    else if same_text a (codes "--yuyv")
    then yuyv_flag
    else if same_text a (codes "--nv12")
    then nv12_flag
    else unknown_flag

abbrev pub publisher_flag : List ℕ → Flag
publisher_flag = common_flag

abbrev pub dma_flag : List ℕ → Flag
dma_flag a =
    if same_text a (codes "--heap")
    then heap_flag
    else if same_text a (codes "--bufs")
    then bufs_flag
    else common_flag a

-- `.parse()?`
abbrev pub with_number : List ℕ → (ℕ → Outcome Options) → Outcome Options
with_number v k = elim (parse_u32 v) [ none ↦ invalid | some n ↦ k n ]

module _ (K : Consts) where
  abbrev pub defaults : Options
  defaults = record {
    device = codes "/dev/video0";
    width = 640;
    height = 480;
    pixel_fmt = K.pix_fmt_yuyv;
    socket_path = default_socket_path;
    heap_path = codes "/dev/dma_heap/system";
    buf_count = 4;
  }

  -- The last argument: a flag that wants a value has none.
  abbrev last_argument : Flag → Options → Outcome Options
  last_argument yuyv_flag o = go (record o { pixel_fmt = K.pix_fmt_yuyv })
  last_argument nv12_flag o = go (record o { pixel_fmt = K.pix_fmt_nv12 })
  last_argument unknown_flag o = usage
  last_argument _ o = invalid

  -- An argument with the next; `skip` goes on after both and `next` after the first.
  abbrev argument :
      Flag → List ℕ → (skip next : Options → Outcome Options) → Options → Outcome Options
  argument device_flag v skip next o = skip (record o { device = v })
  argument width_flag v skip next o = with_number v (λ n. skip (record o { width = n }))
  argument height_flag v skip next o = with_number v (λ n. skip (record o { height = n }))
  argument socket_flag v skip next o = skip (record o { socket_path = v })
  argument heap_flag v skip next o = skip (record o { heap_path = v })
  argument bufs_flag v skip next o = with_number v (λ n. skip (record o { buf_count = n }))
  argument yuyv_flag v skip next o = next (record o { pixel_fmt = K.pix_fmt_yuyv })
  argument nv12_flag v skip next o = next (record o { pixel_fmt = K.pix_fmt_nv12 })
  argument unknown_flag v skip next o = usage

  -- The `while let` over the arguments.
  unfoldable pub parse_args : (List ℕ → Flag) → List (List ℕ) → Options → Outcome Options
  parse_args flag [] o = go o
  parse_args flag (a ∷ []) o = last_argument (flag a) o
  parse_args flag (a ∷ v ∷ rest) o =
      argument (flag a) v (parse_args flag rest) (parse_args flag (v ∷ rest)) o

module _ (S : Platform) (fuel rounds : ℕ) where
  -- `main` of rust/publisher/src/main.rs.
  unfoldable pub publisher_main : List (List ℕ) → Io S Ended
  publisher_main args =
      main_with S (publisher S fuel rounds)
        (parse_args S.consts publisher_flag args (defaults S.consts))

  -- `main` of rust/publisher/src/publisher_dma.rs.
  unfoldable pub publisher_dma_main : List (List ℕ) → Io S Ended
  publisher_dma_main args =
      main_with S (publisher_dma S fuel rounds)
        (parse_args S.consts dma_flag args (defaults S.consts))
