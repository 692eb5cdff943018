-- ===== src/Publisher/Arguments/Settings.antt =====
-- rust/publisher/src/main.rs and rust/publisher/src/publisher_dma.rs, the command lines: the loop
-- against a list of settings, each of which overrides those before it.
use pub_sub_v4l2_dmabuf_wayl.Base.{
  ℕ, ◌≡◌, refl, ap, ◌∙◌, Bool, true, false, List, [], ◌∷◌, Option, none, some, codes, parse_u32,
}
use pub_sub_v4l2_dmabuf_wayl.Platform.Headers.{Consts}
use pub_sub_v4l2_dmabuf_wayl.CommandLine.{Outcome, usage, invalid}
use pub_sub_v4l2_dmabuf_wayl.Publisher.{Options}
use pub_sub_v4l2_dmabuf_wayl.Publisher.Arguments.{
  Flag, device_flag, width_flag, height_flag, socket_flag, heap_flag, bufs_flag, yuyv_flag,
  nv12_flag, unknown_flag, argument, last_argument, parse_args,
}

-- One setting of the command line; a number comes with its text.
pub data Setting : Type 0 where
  set_device set_socket set_heap : List ℕ → Setting
  set_width set_height set_bufs : List ℕ → ℕ → Setting
  set_yuyv set_nv12 : Setting

-- The first argument of a setting, and those after it.
abbrev pub name_of : Setting → List ℕ
name_of (set_device v) = codes "--device"
name_of (set_socket v) = codes "--socket"
name_of (set_heap v) = codes "--heap"
name_of (set_width v n) = codes "--width"
name_of (set_height v n) = codes "--height"
name_of (set_bufs v n) = codes "--bufs"
name_of set_yuyv = codes "--yuyv"
name_of set_nv12 = codes "--nv12"

abbrev values : Setting → List (List ℕ) → List (List ℕ)
values (set_device v) rest = v ∷ rest
values (set_socket v) rest = v ∷ rest
values (set_heap v) rest = v ∷ rest
values (set_width v n) rest = v ∷ rest
values (set_height v n) rest = v ∷ rest
values (set_bufs v n) rest = v ∷ rest
values set_yuyv rest = rest
values set_nv12 rest = rest

-- The arguments of the settings, and others behind them.
abbrev pub written_before : List Setting → List (List ℕ) → List (List ℕ)
written_before [] rest = rest
written_before (s ∷ ss) rest = name_of s ∷ values s (written_before ss rest)

abbrev pub kind_of : Setting → Flag
kind_of (set_device v) = device_flag
kind_of (set_socket v) = socket_flag
kind_of (set_heap v) = heap_flag
kind_of (set_width v n) = width_flag
kind_of (set_height v n) = height_flag
kind_of (set_bufs v n) = bufs_flag
kind_of set_yuyv = yuyv_flag
kind_of set_nv12 = nv12_flag

-- Its number's text is read as the number.
abbrev pub IsRead : Setting → Type 0
IsRead (set_width v n) = parse_u32 v ≡ some n
IsRead (set_height v n) = parse_u32 v ≡ some n
IsRead (set_bufs v n) = parse_u32 v ≡ some n
IsRead _ = Unit

-- The program knows the settings, and reads their numbers.
abbrev pub AreRead : (List ℕ → Flag) → List Setting → Type 0
AreRead flag [] = Unit
AreRead flag (s ∷ ss) = (flag (name_of s) ≡ kind_of s) × IsRead s × AreRead flag ss

abbrev pub apply : Consts → Setting → Options → Options
apply K (set_device v) o = record o { device = v }
apply K (set_socket v) o = record o { socket_path = v }
apply K (set_heap v) o = record o { heap_path = v }
apply K (set_width v n) o = record o { width = n }
apply K (set_height v n) o = record o { height = n }
apply K (set_bufs v n) o = record o { buf_count = n }
apply K set_yuyv o = record o { pixel_fmt = K.pix_fmt_yuyv }
apply K set_nv12 o = record o { pixel_fmt = K.pix_fmt_nv12 }

abbrev pub apply_all : Consts → List Setting → Options → Options
apply_all K [] o = o
apply_all K (s ∷ ss) o = apply_all K ss (apply K s o)

-- The flags after which a value is expected, and those after which a number is.
abbrev pub wants_value : Flag → Bool
wants_value yuyv_flag = false
wants_value nv12_flag = false
wants_value unknown_flag = false
wants_value _ = true

abbrev pub wants_number : Flag → Bool
wants_number width_flag = true
wants_number height_flag = true
wants_number bufs_flag = true
wants_number _ = false

abbrev numbered : (ℕ → Outcome Options) → Option ℕ → Outcome Options
numbered k none = invalid
numbered k (some n) = k n

module _ (K : Consts) (flag : List ℕ → Flag) where
  abbrev with_next : List ℕ → List (List ℕ) → Options → Flag → Outcome Options
  with_next v rest o f = argument K f v (parse_args K flag rest) (parse_args K flag (v ∷ rest)) o

  -- A setting in front sets its option.
  parse_args-setting :
      (s : Setting) (rest : List (List ℕ)) (o : Options)
      → flag (name_of s) ≡ kind_of s
      → IsRead s
      → parse_args K flag (name_of s ∷ values s rest) o ≡ parse_args K flag rest (apply K s o)
  unfolding parse_args
  parse_args-setting (set_device v) rest o e r = ap (with_next v rest o) e
  parse_args-setting (set_socket v) rest o e r = ap (with_next v rest o) e
  parse_args-setting (set_heap v) rest o e r = ap (with_next v rest o) e
  parse_args-setting (set_width v n) rest o e r =
      ap (with_next v rest o) e
      ∙ ap (numbered (λ m. parse_args K flag rest (record o { width = m }))) r
  parse_args-setting (set_height v n) rest o e r =
      ap (with_next v rest o) e
      ∙ ap (numbered (λ m. parse_args K flag rest (record o { height = m }))) r
  parse_args-setting (set_bufs v n) rest o e r =
      ap (with_next v rest o) e
      ∙ ap (numbered (λ m. parse_args K flag rest (record o { buf_count = m }))) r
  parse_args-setting set_yuyv [] o e r = ap (λ f. last_argument K f o) e
  parse_args-setting set_yuyv (a ∷ rest) o e r = ap (with_next a rest o) e
  parse_args-setting set_nv12 [] o e r = ap (λ f. last_argument K f o) e
  parse_args-setting set_nv12 (a ∷ rest) o e r = ap (with_next a rest o) e

  pub parse_args-written_before :
      (ss : List Setting) (rest : List (List ℕ)) (o : Options)
      → AreRead flag ss
      → parse_args K flag (written_before ss rest) o ≡ parse_args K flag rest (apply_all K ss o)
  parse_args-written_before [] rest o r = refl
  parse_args-written_before (s ∷ ss) rest o (e, h, r) =
      parse_args-setting s (written_before ss rest) o e h
      ∙ parse_args-written_before ss rest (apply K s o) r

  pub unknown_argument :
      (a : List ℕ) (rest : List (List ℕ)) (o : Options)
      → flag a ≡ unknown_flag
      → parse_args K flag (a ∷ rest) o ≡ usage
  unfolding parse_args
  unknown_argument a [] o e = ap (λ f. last_argument K f o) e
  unknown_argument a (v ∷ rest) o e = ap (with_next v rest o) e

  last_argument-invalid :
      (f : Flag) (o : Options) → wants_value f ≡ true → last_argument K f o ≡ invalid
  last_argument-invalid device_flag o e = refl
  last_argument-invalid width_flag o e = refl
  last_argument-invalid height_flag o e = refl
  last_argument-invalid socket_flag o e = refl
  last_argument-invalid heap_flag o e = refl
  last_argument-invalid bufs_flag o e = refl
  last_argument-invalid yuyv_flag o e = cc
  last_argument-invalid nv12_flag o e = cc
  last_argument-invalid unknown_flag o e = cc

  pub missing_value :
      (a : List ℕ) (o : Options)
      → wants_value (flag a) ≡ true
      → parse_args K flag (a ∷ []) o ≡ invalid
  unfolding parse_args
  missing_value a o e = last_argument-invalid (flag a) o e

  with_next-invalid :
      (v : List ℕ) (rest : List (List ℕ)) (o : Options) (f : Flag)
      → wants_number f ≡ true
      → parse_u32 v ≡ none
      → with_next v rest o f ≡ invalid
  with_next-invalid v rest o width_flag e r =
      ap (numbered (λ m. parse_args K flag rest (record o { width = m }))) r
  with_next-invalid v rest o height_flag e r =
      ap (numbered (λ m. parse_args K flag rest (record o { height = m }))) r
  with_next-invalid v rest o bufs_flag e r =
      ap (numbered (λ m. parse_args K flag rest (record o { buf_count = m }))) r
  with_next-invalid v rest o device_flag e r = cc
  with_next-invalid v rest o socket_flag e r = cc
  with_next-invalid v rest o heap_flag e r = cc
  with_next-invalid v rest o yuyv_flag e r = cc
  with_next-invalid v rest o nv12_flag e r = cc
  with_next-invalid v rest o unknown_flag e r = cc

  pub bad_number :
      (a v : List ℕ) (rest : List (List ℕ)) (o : Options)
      → wants_number (flag a) ≡ true
      → parse_u32 v ≡ none
      → parse_args K flag (a ∷ v ∷ rest) o ≡ invalid
  unfolding parse_args
  bad_number a v rest o e r = with_next-invalid v rest o (flag a) e r
