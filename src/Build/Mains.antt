-- ===== src/Build/Mains.antt =====
-- rust/common/build.rs and rust/subscriber/build.rs: their `main`.
use pub_sub_v4l2_dmabuf_wayl.Base.{ℕ, ◌≡◌, refl, subst, ◌∙◌, List, [], ◌++◌, none, some, codes}
use pub_sub_v4l2_dmabuf_wayl.Effect.Triple.{Sat, Sat-bind, Sat-weaken}
use pub_sub_v4l2_dmabuf_wayl.Build.{
  Step, Host, Building, call, expect, v4l2_build, include_paths, egl_build,
}
use pub_sub_v4l2_dmabuf_wayl.Build.Texts.{
  lines, v4l2_text, egl_text, source-v4l2_probe, source-egl_probe,
}
use pub_sub_v4l2_dmabuf_wayl.Build.Headers.{v4l2_probe, egl_probe}
use pub_sub_v4l2_dmabuf_wayl.Build.Outcome.{Toolchain, Built, Broken, unbroken, in_out_dir-Built}
use pub_sub_v4l2_dmabuf_wayl.Build.Scripts.{halting, Sat-call}

module _ (H : Host) (value : List ℕ → ℕ) where
  -- The build script of rust/common has, if it returns, written the text CONST_PROBE_C to
  -- `v4l2_probe.c` in `OUT_DIR`, compiled that file to `v4l2_probe` with no include path, run it, and
  -- written `v4l2_consts.rs`, in this order; and that file declares each constant of the text with
  -- the number of the system's headers, cast to its C type. Otherwise it has panicked before that
  -- file was written. The program that the C compiler makes of this text with these arguments
  -- prints the constants, and their numbers are in the ranges of their Rust types.
  pub v4l2_build-Built :
      (w : Building H)
      → Toolchain H value v4l2_probe (lines v4l2_text) (codes "v4l2_probe") (codes "v4l2_consts.rs")
      → Sat
          (λ _ w'.
            (dir : List ℕ) × (H.out_dir w.sys ≡ some dir)
            × Built H value v4l2_probe
                (lines v4l2_text)
                (codes "v4l2_probe")
                (codes "v4l2_consts.rs")
                dir
                []
                w.steps
                w'.steps)
          (halting H (
            Broken H value v4l2_probe
              (lines v4l2_text)
              (codes "v4l2_probe")
              (codes "v4l2_consts.rs")
              w.steps))
          (v4l2_build H w)
  unfolding v4l2_build
  v4l2_build-Built w tools =
      in_out_dir-Built H value v4l2_probe (lines v4l2_text) (codes "v4l2_probe")
        (codes "v4l2_consts.rs") [] (H.out_dir w.sys) w tools source-v4l2_probe refl

  -- The libraries as pkg-config found them, one after the other, and the directory then.
  pub record Located (s : H.State) (egl gles : List (List ℕ)) (dir : List ℕ) : Type 0 where
    pub s1 : H.State
    pub s2 : H.State
    pub s3 : H.State
    pub window : List (List ℕ)
    pub has_egl : H.probe_library (codes "egl") s ≡ (some egl, s1)
    pub has_gles : H.probe_library (codes "glesv2") s1 ≡ (some gles, s2)
    pub has_window : H.probe_library (codes "wayland-egl") s2 ≡ (some window, s3)
    pub has_dir : H.out_dir s3 ≡ some dir

  include_paths-found :
      (library : List ℕ) (w : Building H)
      → Sat
          (λ paths w'.
            (H.probe_library library w.sys ≡ (some paths, w'.sys)) × (w'.steps ≡ w.steps))
          (halting H (λ u. u ≡ w.steps))
          (include_paths H library w)
  unfolding include_paths
  include_paths-found library w =
      Sat-bind (call H (H.probe_library library) (λ _. [])) (expect H) w
        (Sat-call H (H.probe_library library) (λ _. []) w)
        (elim [ none ↦ λ w' e. record { at = e.1 } | some paths ↦ λ w' e. record { at = e } ])

  abbrev pub EglBroken : List Step → List Step → Type 0
  EglBroken =
      Broken H value egl_probe (lines egl_text) (codes "const_probe") (codes "egl_consts.rs")

  -- The build script of rust/subscriber has, if it returns, found its three libraries, and then
  -- written the text CONST_PROBE_C to `const_probe.c` in `OUT_DIR`, compiled that file to
  -- `const_probe` with `-I` and each include path of EGL and after them each of GLES, run it, and
  -- written `egl_consts.rs`, in this order; and that file declares each constant of the text with
  -- the number of the system's headers, cast to its C type. Otherwise it has panicked before that
  -- file was written. The program that the C compiler makes of this text with these arguments
  -- prints the constants, and their numbers are in the ranges of their Rust types.
  pub egl_build-Built :
      (w : Building H)
      → Toolchain H value egl_probe (lines egl_text) (codes "const_probe") (codes "egl_consts.rs")
      → Sat
          (λ _ w'.
            (egl : List (List ℕ)) × (gles : List (List ℕ)) × (dir : List ℕ) × Located w.sys egl gles
              dir
            × Built H value egl_probe
                (lines egl_text)
                (codes "const_probe")
                (codes "egl_consts.rs")
                dir
                (egl ++ gles)
                w.steps
                w'.steps)
          (halting H (EglBroken w.steps))
          (egl_build H w)
  unfolding egl_build
  egl_build-Built w tools =
      Sat-bind (include_paths H (codes "egl")) _ w (probed (codes "egl") w refl) λ egl w1 e1.
        Sat-bind (include_paths H (codes "glesv2")) _ w1 (probed (codes "glesv2") w1 e1.1)
          λ gles w2 e2.
            Sat-bind (include_paths H (codes "wayland-egl")) _ w2
              (probed (codes "wayland-egl") w2 (e2.1 ∙ e1.1))
              λ window w3 e3.
                let same = e3.1 ∙ e2.1 ∙ e1.1 in
                Sat-weaken {Y = halting H (EglBroken w3.steps)} _
                  (in_out_dir-Built H value egl_probe (lines egl_text) (codes "const_probe")
                    (codes "egl_consts.rs") (egl ++ gles) (H.out_dir w3.sys) w3 tools
                    source-egl_probe refl)
                  (λ _ w' b. (
                    egl,
                    gles,
                    b.0,
                    located w1.sys w2.sys w3.sys window e1.0 e2.0 e3.0 b.1,
                    since same b.2,
                  ))
                  (λ _ _ h. h) (λ w' b. subst (λ t. EglBroken t w'.steps) same b) (λ _ h. h)
    where
      since :
          {dir : List ℕ} {includes : List (List ℕ)} {t t' u : List Step}
          → t ≡ t'
          → Built H value egl_probe
              (lines egl_text)
              (codes "const_probe")
              (codes "egl_consts.rs")
              dir
              includes
              t
              u
          → Built H value egl_probe
              (lines egl_text)
              (codes "const_probe")
              (codes "egl_consts.rs")
              dir
              includes
              t'
              u
      since {dir} {includes} {u = u} e b =
          subst
            (λ t.
              Built H value egl_probe (lines egl_text) (codes "const_probe") (codes "egl_consts.rs")
                dir includes t u)
            e b

      located :
          {egl gles : List (List ℕ)} {dir : List ℕ} (s1 s2 s3 : H.State) (window : List (List ℕ))
          → H.probe_library (codes "egl") w.sys ≡ (some egl, s1)
          → H.probe_library (codes "glesv2") s1 ≡ (some gles, s2)
          → H.probe_library (codes "wayland-egl") s2 ≡ (some window, s3)
          → H.out_dir s3 ≡ some dir
          → Located w.sys egl gles dir
      located s1 s2 s3 window a b c d = record {
        s1 = s1;
        s2 = s2;
        s3 = s3;
        window = window;
        has_egl = a;
        has_gles = b;
        has_window = c;
        has_dir = d;
      }

      probed :
          (library : List ℕ) (w' : Building H)
          → w'.steps ≡ w.steps
          → Sat
              (λ paths w''.
                (H.probe_library library w'.sys ≡ (some paths, w''.sys)) × (w''.steps ≡ w'.steps))
              (halting H (EglBroken w.steps))
              (include_paths H library w')
      probed library w' e =
          Sat-weaken {Y = halting H (λ u. u ≡ w'.steps)} _ (include_paths-found library w')
            (λ _ _ h. h) (λ _ _ h. h)
            (λ _ q.
              unbroken H value egl_probe (lines egl_text) (codes "const_probe")
                (codes "egl_consts.rs") (q ∙ e))
            (λ _ h. h)
