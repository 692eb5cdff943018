-- ===== src/Tests/Arguments.antt =====
-- The theorem on the command lines, applied to one of publisher's.
use pub_sub_v4l2_dmabuf_wayl.Base.{◌≡◌, refl, List, [], ◌∷◌, codes}
use pub_sub_v4l2_dmabuf_wayl.CommandLine.{go, usage, invalid}
use pub_sub_v4l2_dmabuf_wayl.Publisher.{Options}
use pub_sub_v4l2_dmabuf_wayl.Publisher.Arguments.{parse_args, defaults}
use pub_sub_v4l2_dmabuf_wayl.Publisher.Arguments.Settings.{
  Setting, set_device, set_height, set_width, set_nv12, written_before,
}
use pub_sub_v4l2_dmabuf_wayl.Publisher.Arguments.Programs.{
  mmap_program, flags_of, parse_args-settings,
}
use pub_sub_v4l2_dmabuf_wayl.Tests.{numbers}

-- The second width overrides the first.
abbrev wide : List Setting
wide = set_width (codes "800") 800 ∷ set_nv12 ∷ set_width (codes "1280") 1280 ∷ []

abbrev wide_options : Options
wide_options = record (defaults numbers) { width = 1280; pixel_fmt = 12 }

parse_args-settings_example :
    (parse_args numbers (flags_of mmap_program) (written_before wide []) (defaults numbers)
      ≡ go wide_options)
    × (parse_args numbers
          (flags_of mmap_program)
          (written_before wide (codes "--heap" ∷ []))
          (defaults numbers)
        ≡ usage)
    × (parse_args numbers
          (flags_of mmap_program)
          (written_before wide (codes "--device" ∷ []))
          (defaults numbers)
        ≡ invalid)
    × (parse_args numbers
          (flags_of mmap_program)
          (written_before wide (codes "--height" ∷ codes "tall" ∷ []))
          (defaults numbers)
        ≡ invalid)
parse_args-settings_example =
    parse_args-settings numbers mmap_program wide (defaults numbers) (codes "--heap")
      (set_device []) (set_height [] 0) (codes "tall") [] (tt, refl, (tt, tt, (tt, refl, tt)))
      (refl, (refl, (refl, (refl, (refl, (refl, tt)))))) tt tt tt tt refl
