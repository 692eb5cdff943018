-- ===== src/Build.antt =====
-- rust/common/build.rs and rust/subscriber/build.rs: each compiles a C program against the system's
-- headers, runs it, and keeps what it prints as a file of Rust constants. The machine that builds is
-- a parameter: its files, its C compiler, and the crate pkg-config.
pub mod Probe
pub mod Headers
pub mod Texts
pub mod Reading
pub mod Scripts
pub mod Outcome
pub mod Mains
use pub_sub_v4l2_dmabuf_wayl.Base.{
  ℕ, List, [], ◌∷◌, ◌++◌, map, Bool, Option, none, some, ◌==◌, if◌then◌else◌, codes,
}
use pub_sub_v4l2_dmabuf_wayl.Effect.{M, ret, pure, panics, state, ◌>>=◌, ◌>>◌}
use pub_sub_v4l2_dmabuf_wayl.Build.Probe.{Item, source}
use pub_sub_v4l2_dmabuf_wayl.Build.Headers.{v4l2_probe, egl_probe}

-- What a script has done.
pub data Step : Type 0 where
  wrote : List ℕ → List ℕ → Step
  compiled : List (List ℕ) → Step
  ran : List ℕ → Step
  said : List ℕ → Step

-- The machine. A path, an argument and a text is the list of its characters.
pub record Host : Type 1 where
  pub State : Type 0
  -- the environment's `OUT_DIR`
  pub out_dir : State → Option (List ℕ)
  pub write : List ℕ → List ℕ → State → Bool × State
  -- whether `cc` was started, and whether it succeeded
  pub cc : List (List ℕ) → State → Option Bool × State
  -- whether the program was started; whether it succeeded, and what it printed
  pub output : List ℕ → State → Option (Bool × List ℕ) × State
  -- the include paths of a library that pkg-config knows
  pub probe_library : List ℕ → State → Option (List (List ℕ)) × State

pub record Building (H : Host) : Type 0 where
  pub sys : H.State
  pub steps : List Step

-- `PathBuf::join` of the name of a file.
abbrev pub join : List ℕ → List ℕ → List ℕ
join [] name = name
join (c ∷ []) name = if c == 47 then c ∷ name else c ∷ 47 ∷ name
join (c ∷ d ∷ path) name = c ∷ join (d ∷ path) name

-- The files of a probe in the directory of the output.
pub record Files : Type 0 where
  pub probe_c : List ℕ
  pub probe_bin : List ℕ
  pub consts_rs : List ℕ

module _ (H : Host) where
  abbrev pub call : {A : Type 0} → (H.State → A × H.State) → (A → List Step) → M (Building H) A
  call f note w = let (a, s) = f w.sys in ret a (record { sys = s; steps = note a ++ w.steps })

  -- `expect`, `unwrap` and `assert!`
  abbrev pub expect : {A : Type 0} → Option A → M (Building H) A
  expect none = panics
  expect (some a) = pure a

  abbrev pub check : Bool → M (Building H) (Unit {0})
  check b = if b then pure tt else panics

  abbrev pub write_note : List ℕ → List ℕ → Bool → List Step
  write_note path text b = if b then wrote path text ∷ [] else []

  unfoldable pub write_file : List ℕ → List ℕ → M (Building H) (Unit {0})
  write_file path text = call (H.write path text) (write_note path text) >>= check

  abbrev pub cc_note : List (List ℕ) → Option Bool → List Step
  cc_note args none = []
  cc_note args (some b) = if b then compiled args ∷ [] else []

  abbrev pub check_status : Option Bool → M (Building H) (Unit {0})
  check_status status = expect status >>= check

  unfoldable pub run_cc : List (List ℕ) → M (Building H) (Unit {0})
  run_cc args = call (H.cc args) (cc_note args) >>= check_status

  abbrev pub output_note : List ℕ → Option (Bool × List ℕ) → List Step
  output_note bin none = []
  output_note bin (some (b, text)) = if b then ran bin ∷ [] else []

  abbrev pub stdout_of : Option (Bool × List ℕ) → M (Building H) (List ℕ)
  stdout_of out = do (success, stdout) ← expect out; _ ← check success; pure stdout

  unfoldable pub run_probe : List ℕ → M (Building H) (List ℕ)
  run_probe bin = call (H.output bin) (output_note bin) >>= stdout_of

  abbrev pub files_in : List ℕ → List ℕ → List ℕ → Files
  files_in dir name consts = record {
    probe_c = join dir (name ++ codes ".c");
    probe_bin = join dir name;
    consts_rs = join dir consts;
  }

  abbrev pub cc_args : List (List ℕ) → Files → List (List ℕ)
  cc_args includes f =
      map (λ p. codes "-I" ++ p) includes ++ (f.probe_c ∷ codes "-o" ∷ f.probe_bin ∷ [])

  -- From the probe's source on; the two scripts share its text.
  unfoldable pub write_consts : List Item → List (List ℕ) → Files → M (Building H) (Unit {0})
  write_consts probe includes f = do
    write_file f.probe_c (source probe)
    run_cc (cc_args includes f)
    stdout ← run_probe f.probe_bin
    write_file f.consts_rs stdout
    call (λ s. (tt, s)) (λ _. said (codes "cargo:rerun-if-changed=build.rs") ∷ [])

  -- `main` of rust/common/build.rs.
  unfoldable pub v4l2_build : M (Building H) (Unit {0})
  v4l2_build = do
    found ← state (λ w. H.out_dir w.sys)
    dir ← expect found
    write_consts v4l2_probe [] (files_in dir (codes "v4l2_probe") (codes "v4l2_consts.rs"))

  unfoldable pub include_paths : List ℕ → M (Building H) (List (List ℕ))
  include_paths library = do found ← call (H.probe_library library) (λ _. []); expect found

  -- `main` of rust/subscriber/build.rs.
  unfoldable pub egl_build : M (Building H) (Unit {0})
  egl_build = do
    egl ← include_paths (codes "egl")
    gles ← include_paths (codes "glesv2")
    _ ← include_paths (codes "wayland-egl")
    found ← state (λ w. H.out_dir w.sys)
    dir ← expect found
    write_consts egl_probe (egl ++ gles)
        (files_in dir (codes "const_probe") (codes "egl_consts.rs"))
