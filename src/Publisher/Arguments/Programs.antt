-- ===== src/Publisher/Arguments/Programs.antt =====
-- rust/publisher/src/main.rs and rust/publisher/src/publisher_dma.rs: the command line of each.
use pub_sub_v4l2_dmabuf_wayl.Base.{
  ℕ, ◌≡◌, refl, ap, ◌∙◌, true, false, List, [], ◌∷◌, none, codes, parse_u32, same_text,
}
use pub_sub_v4l2_dmabuf_wayl.Platform.Headers.{Consts}
use pub_sub_v4l2_dmabuf_wayl.CommandLine.{go, usage, invalid}
use pub_sub_v4l2_dmabuf_wayl.Publisher.{Options}
use pub_sub_v4l2_dmabuf_wayl.Publisher.Arguments.{
  Flag, unknown_flag, publisher_flag, dma_flag, parse_args,
}
use pub_sub_v4l2_dmabuf_wayl.Publisher.Arguments.Settings.{
  Setting, set_device, set_socket, set_heap, set_width, set_height, set_bufs, set_yuyv, set_nv12,
  name_of, kind_of, IsRead, AreRead, written_before, apply_all, wants_value, wants_number,
  parse_args-written_before, unknown_argument, missing_value, bad_number,
}

-- The two programs, with the flags that each looks for.
pub data Program : Type 0 where
  mmap_program dma_program : Program

abbrev pub flags_of : Program → List ℕ → Flag
flags_of mmap_program = publisher_flag
flags_of dma_program = dma_flag

-- What each program can be told; the heap and the number of buffers are for publisher_dma alone.
abbrev pub Knows : Program → Setting → Type 0
Knows mmap_program (set_heap v) = ⊥
Knows mmap_program (set_bufs v n) = ⊥
Knows _ _ = Unit

abbrev pub common_names : List (List ℕ)
common_names =
    codes "--device"
    ∷ codes "--width"
    ∷ codes "--height"
    ∷ codes "--socket"
    ∷ codes "--yuyv"
    ∷ codes "--nv12"
    ∷ []

abbrev pub names_of : Program → List (List ℕ)
names_of mmap_program = common_names
names_of dma_program = codes "--heap" ∷ codes "--bufs" ∷ common_names

abbrev pub NoneOf : List (List ℕ) → List ℕ → Type 0
NoneOf [] a = Unit
NoneOf (n ∷ ns) a = (same_text a n ≡ false) × NoneOf ns a

-- The settings that come with a value, and with a number.
abbrev pub HasValue : Setting → Type 0
HasValue set_yuyv = ⊥
HasValue set_nv12 = ⊥
HasValue _ = Unit

abbrev pub HasNumber : Setting → Type 0
HasNumber (set_width v n) = Unit
HasNumber (set_height v n) = Unit
HasNumber (set_bufs v n) = Unit
HasNumber _ = ⊥

-- Settings that the program knows, with numbers that their texts stand for.
abbrev pub AreSettings : Program → List Setting → Type 0
AreSettings p [] = Unit
AreSettings p (s ∷ ss) = Knows p s × IsRead s × AreSettings p ss

publisher_flag-name_of :
    (s : Setting) → Knows mmap_program s → publisher_flag (name_of s) ≡ kind_of s
publisher_flag-name_of (set_device v) k = refl
publisher_flag-name_of (set_socket v) k = refl
publisher_flag-name_of (set_heap v) k = absurd k
publisher_flag-name_of (set_width v n) k = refl
publisher_flag-name_of (set_height v n) k = refl
publisher_flag-name_of (set_bufs v n) k = absurd k
publisher_flag-name_of set_yuyv k = refl
publisher_flag-name_of set_nv12 k = refl

dma_flag-name_of : (s : Setting) → dma_flag (name_of s) ≡ kind_of s
dma_flag-name_of (set_device v) = refl
dma_flag-name_of (set_socket v) = refl
dma_flag-name_of (set_heap v) = refl
dma_flag-name_of (set_width v n) = refl
dma_flag-name_of (set_height v n) = refl
dma_flag-name_of (set_bufs v n) = refl
dma_flag-name_of set_yuyv = refl
dma_flag-name_of set_nv12 = refl

flags_of-name_of : (p : Program) (s : Setting) → Knows p s → flags_of p (name_of s) ≡ kind_of s
flags_of-name_of mmap_program s k = publisher_flag-name_of s k
flags_of-name_of dma_program s k = dma_flag-name_of s

AreSettings-AreRead : (p : Program) (ss : List Setting) → AreSettings p ss → AreRead (flags_of p) ss
AreSettings-AreRead p [] r = tt
AreSettings-AreRead p (s ∷ ss) (k, h, r) = (flags_of-name_of p s k, h, AreSettings-AreRead p ss r)

publisher_flag-unknown : (a : List ℕ) → NoneOf common_names a → publisher_flag a ≡ unknown_flag
publisher_flag-unknown a (d, (w, (h, (s, (y, (n, end)))))) = rw (d, w, h, s, y, n) refl

flags_of-unknown : (p : Program) (a : List ℕ) → NoneOf (names_of p) a → flags_of p a ≡ unknown_flag
flags_of-unknown mmap_program a q = publisher_flag-unknown a q
flags_of-unknown dma_program a (h, (b, q)) = rw (h, b) (publisher_flag-unknown a q)

HasValue-kind_of : (s : Setting) → HasValue s → wants_value (kind_of s) ≡ true
HasValue-kind_of (set_device v) h = refl
HasValue-kind_of (set_socket v) h = refl
HasValue-kind_of (set_heap v) h = refl
HasValue-kind_of (set_width v n) h = refl
HasValue-kind_of (set_height v n) h = refl
HasValue-kind_of (set_bufs v n) h = refl
HasValue-kind_of set_yuyv h = absurd h
HasValue-kind_of set_nv12 h = absurd h

HasNumber-kind_of : (s : Setting) → HasNumber s → wants_number (kind_of s) ≡ true
HasNumber-kind_of (set_width v n) h = refl
HasNumber-kind_of (set_height v n) h = refl
HasNumber-kind_of (set_bufs v n) h = refl
HasNumber-kind_of (set_device v) h = absurd h
HasNumber-kind_of (set_socket v) h = absurd h
HasNumber-kind_of (set_heap v) h = absurd h
HasNumber-kind_of set_yuyv h = absurd h
HasNumber-kind_of set_nv12 h = absurd h

module _ (K : Consts) where
  -- The command line of either program against a list of its settings with numbers that can be
  -- read: alone they give the options that they set, where a later one overrides an earlier one;
  -- before an argument that is none of the program's names they give the usage; and before the name
  -- of a setting whose value is missing, or is no number where one is wanted, they give an error.
  pub parse_args-settings :
      (p : Program) (ss : List Setting) (o : Options) (unknown : List ℕ)
      (wanting counting : Setting) (text : List ℕ) (rest : List (List ℕ))
      → AreSettings p ss
      → NoneOf (names_of p) unknown
      → Knows p wanting
      → HasValue wanting
      → Knows p counting
      → HasNumber counting
      → parse_u32 text ≡ none
      → (parse_args K (flags_of p) (written_before ss []) o ≡ go (apply_all K ss o))
        × (parse_args K (flags_of p) (written_before ss (unknown ∷ rest)) o ≡ usage)
        × (parse_args K (flags_of p) (written_before ss (name_of wanting ∷ [])) o ≡ invalid)
        × (parse_args K (flags_of p) (written_before ss (name_of counting ∷ text ∷ rest)) o
            ≡ invalid)
  unfolding parse_args
  parse_args-settings p ss o unknown wanting counting text rest r u kw v kn n t =
      let f = flags_of p in
      let known = AreSettings-AreRead p ss r in
      (
        parse_args-written_before K f ss [] o known,
        parse_args-written_before K f ss (unknown ∷ rest) o known
            ∙ unknown_argument K f unknown rest (apply_all K ss o) (flags_of-unknown p unknown u),
        parse_args-written_before K f ss (name_of wanting ∷ []) o known
            ∙ missing_value K f (name_of wanting) (apply_all K ss o)
                (ap wants_value (flags_of-name_of p wanting kw) ∙ HasValue-kind_of wanting v),
        parse_args-written_before K f ss (name_of counting ∷ text ∷ rest) o known
            ∙ bad_number K f (name_of counting) text rest (apply_all K ss o)
                (ap wants_number (flags_of-name_of p counting kn) ∙ HasNumber-kind_of counting n) t,
      )
