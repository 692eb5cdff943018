-- ===== src/Tests/Build.antt =====
-- The build scripts on a machine on which every call succeeds and each constant is the length of its
-- name.
use pub_sub_v4l2_dmabuf_wayl.Base.{
  ℕ, ◌≡◌, refl, List, [], ◌∷◌, ◌++◌, true, some, arith, length, codes,
}
use pub_sub_v4l2_dmabuf_wayl.Effect.Triple.{Sat}
use pub_sub_v4l2_dmabuf_wayl.Build.{Host, Building, v4l2_build, egl_build}
use pub_sub_v4l2_dmabuf_wayl.Build.Probe.{Item, print_constant, printed}
use pub_sub_v4l2_dmabuf_wayl.Build.Texts.{lines, v4l2_text, egl_text}
use pub_sub_v4l2_dmabuf_wayl.Build.Headers.{eu, epu, el, ei, v4l2_probe, egl_probe}
use pub_sub_v4l2_dmabuf_wayl.Build.Reading.{read_file}
use pub_sub_v4l2_dmabuf_wayl.Build.Reading.RoundTrip.{all_in_range, declared, read_file-printed}
use pub_sub_v4l2_dmabuf_wayl.Build.Scripts.{halting}
use pub_sub_v4l2_dmabuf_wayl.Build.Outcome.{Toolchain, Built, Broken}
use pub_sub_v4l2_dmabuf_wayl.Build.Mains.{v4l2_build-Built, Located, egl_build-Built}

abbrev host : List Item → Host
host probe = record {
  State = ℕ;
  out_dir = λ n. some (codes "/out");
  write = λ path text n. (true, n);
  cc = λ args n. (some true, n);
  output = λ bin n. (some (true, printed length probe), n);
  probe_library = λ library n. (some (codes "/usr/include" ∷ []), n);
}

abbrev at_home : (probe : List Item) → Building (host probe)
at_home probe = record { sys = 0; steps = [] }

host-Toolchain :
    (probe : List Item) (code name consts : List ℕ)
    → all_in_range length probe ≡ true
    → Toolchain (host probe) length probe code name consts
host-Toolchain probe code name consts fits = record {
  fits = fits;
  at = λ dir includes. record { at = λ s0 s1 s2 s3 text a b c. cc c };
}

read_file-printed_example :
    read_file 31 (printed length v4l2_probe) ≡ some (declared length v4l2_probe)
read_file-printed_example = read_file-printed 31 length v4l2_probe refl refl (omega arith)

v4l2_build-Built_example :
    Sat
      (λ _ w'.
        (dir : List ℕ) × (some (codes "/out") ≡ some dir)
        × Built
            (host v4l2_probe)
            length
            v4l2_probe
            (lines v4l2_text)
            (codes "v4l2_probe")
            (codes "v4l2_consts.rs")
            dir
            []
            []
            w'.steps)
      (halting (host v4l2_probe) (
        Broken
          (host v4l2_probe)
          length
          v4l2_probe
          (lines v4l2_text)
          (codes "v4l2_probe")
          (codes "v4l2_consts.rs")
          []))
      (v4l2_build (host v4l2_probe) (at_home v4l2_probe))
v4l2_build-Built_example =
    v4l2_build-Built (host v4l2_probe) length (at_home v4l2_probe) (
      host-Toolchain v4l2_probe (lines v4l2_text) (codes "v4l2_probe") (codes "v4l2_consts.rs")
        refl)

egl_build-Built_example :
    Sat
      (λ _ w'.
        (egl : List (List ℕ)) × (gles : List (List ℕ)) × (dir : List ℕ) × Located
          (host egl_probe)
          length
          0
          egl
          gles
          dir
        × Built
            (host egl_probe)
            length
            egl_probe
            (lines egl_text)
            (codes "const_probe")
            (codes "egl_consts.rs")
            dir
            (egl ++ gles)
            []
            w'.steps)
      (halting (host egl_probe) (
        Broken
          (host egl_probe)
          length
          egl_probe
          (lines egl_text)
          (codes "const_probe")
          (codes "egl_consts.rs")
          []))
      (egl_build (host egl_probe) (at_home egl_probe))
egl_build-Built_example =
    egl_build-Built (host egl_probe) length (at_home egl_probe)
      (host-Toolchain egl_probe (lines egl_text) (codes "const_probe") (codes "egl_consts.rs") refl)

-- A line of each kind.
eu_line :
    print_constant eu "V4L2_MEMORY_MMAP" 1 [] ≡ codes "const V4L2_MEMORY_MMAP: u32 = 0x00000001;\n"
unfolding print_constant
eu_line = refl

epu_line :
    print_constant epu "V4L2_PIX_FMT_YUYV" 1448695129 []
    ≡ codes "pub const V4L2_PIX_FMT_YUYV: u32 = 0x56595559;\n"
unfolding print_constant
epu_line = refl

el_line :
    print_constant el "VIDIOC_STREAMON" 1074026002 []
    ≡ codes "const VIDIOC_STREAMON: u64 = 0x0000000040045612;\n"
unfolding print_constant
el_line = refl

ei_line :
    print_constant ei "EGL_DMA_BUF_PLANE0_MODIFIER_LO_EXT" 13379 []
    ≡ codes "const EGL_DMA_BUF_PLANE0_MODIFIER_LO_EXT: i32 = 0x3443;\n"
unfolding print_constant
ei_line = refl
