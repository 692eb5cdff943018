-- ===== src/Build/Scripts.antt =====
-- rust/common/build.rs and rust/subscriber/build.rs: what they have done when they are over.
use pub_sub_v4l2_dmabuf_wayl.Base.{
  ℕ, ◌≡◌, refl, subst, List, ◌∷◌, ◌++◌, true, false, none, some, codes,
}
use pub_sub_v4l2_dmabuf_wayl.Effect.Triple.{Exits, Sat, Sat-bind, Sat-weaken}
use pub_sub_v4l2_dmabuf_wayl.Build.{
  Step, wrote, compiled, ran, said, Host, Building, Files, call, check, write_note, write_file,
  check_status, stdout_of, cc_note, run_cc, output_note, run_probe, cc_args, write_consts,
}
use pub_sub_v4l2_dmabuf_wayl.Build.Probe.{Item, source, printed}

-- A build that is broken off: how far it has come, and the file of constants is not written.
pub data Unfinished (code : List ℕ) (args : List (List ℕ)) (f : Files) (t : List Step)
    : List Step → Type 0 where
  not_begun : Unfinished code args f t t
  not_compiled : Unfinished code args f t (wrote f.probe_c code ∷ t)
  not_run : Unfinished code args f t (compiled args ∷ wrote f.probe_c code ∷ t)
  not_written :
      Unfinished code args f t (ran f.probe_bin ∷ compiled args ∷ wrote f.probe_c code ∷ t)

-- The steps of a build that has ended, with the text that it has written.
abbrev pub finished : List ℕ → List (List ℕ) → Files → List ℕ → List Step → List Step
finished code args f text t =
    said (codes "cargo:rerun-if-changed=build.rs")
    ∷ wrote f.consts_rs text
    ∷ ran f.probe_bin
    ∷ compiled args
    ∷ wrote f.probe_c code
    ∷ t

module _ (H : Host) where
  -- A script that neither fails nor goes on for ever.
  abbrev pub halting : (List Step → Type 0) → Exits (Building H)
  halting P = record { failing = λ _ _. ⊥; panicking = λ w. P w.steps; spinning = λ _. ⊥ }

  pub Sat-call :
      {A : Type 0} {X : Exits (Building H)} (f : H.State → A × H.State) (note : A → List Step)
      (w : Building H)
      → Sat (λ a w'. (f w.sys ≡ (a, w'.sys)) × (w'.steps ≡ note a ++ w.steps)) X (call H f note w)
  Sat-call f note w = record { at = (refl, refl) }

  write_file-wrote :
      (path text : List ℕ) (w : Building H)
      → Sat
          (λ _ w'.
            (H.write path text w.sys ≡ (true, w'.sys)) × (w'.steps ≡ wrote path text ∷ w.steps))
          (halting (λ u. u ≡ w.steps))
          (write_file H path text w)
  unfolding write_file
  write_file-wrote path text w =
      Sat-bind (call H (H.write path text) (write_note H path text)) (check H) w
        (Sat-call (H.write path text) (write_note H path text) w)
        (elim [ true ↦ λ w' e. record { at = e } | false ↦ λ w' e. record { at = e.1 } ])

  run_cc-compiled :
      (args : List (List ℕ)) (w : Building H)
      → Sat
          (λ _ w'. (H.cc args w.sys ≡ (some true, w'.sys)) × (w'.steps ≡ compiled args ∷ w.steps))
          (halting (λ u. u ≡ w.steps))
          (run_cc H args w)
  unfolding run_cc
  run_cc-compiled args w =
      Sat-bind (call H (H.cc args) (cc_note H args)) (check_status H) w
        (Sat-call (H.cc args) (cc_note H args) w)
        (elim [
          | none ↦ λ w' e. record { at = e.1 }
          | some true ↦ λ w' e. record { at = e }
          | some false ↦ λ w' e. record { at = e.1 }
        ])

  run_probe-ran :
      (bin : List ℕ) (w : Building H)
      → Sat
          (λ text w'.
            (H.output bin w.sys ≡ (some (true, text), w'.sys)) × (w'.steps ≡ ran bin ∷ w.steps))
          (halting (λ u. u ≡ w.steps))
          (run_probe H bin w)
  unfolding run_probe
  run_probe-ran bin w =
      Sat-bind (call H (H.output bin) (output_note H bin)) (stdout_of H) w
        (Sat-call (H.output bin) (output_note H bin) w)
        (elim [
          | none ↦ λ w' e. record { at = e.1 }
          | some (true, text) ↦ λ w' e. record { at = e }
          | some (false, text) ↦ λ w' e. record { at = e.1 }
        ])

  -- The C compiler and the headers: a program that has been written, compiled and run successfully,
  -- one right after the other, has printed its constants.
  pub record Prints (value : List ℕ → ℕ) (probe : List Item) (code : List ℕ) (args : List (List ℕ))
      (f : Files) : Type 0 where
    pub at :
        (s0 s1 s2 s3 : H.State) (text : List ℕ)
        → H.write f.probe_c code s0 ≡ (true, s1)
        → H.cc args s1 ≡ (some true, s2)
        → H.output f.probe_bin s2 ≡ (some (true, text), s3)
        → text ≡ printed value probe

  pub write_consts-finished :
      (value : List ℕ → ℕ) (probe : List Item) (includes : List (List ℕ)) (f : Files)
      (w : Building H)
      → Prints value probe (source probe) (cc_args H includes f) f
      → Sat
          (λ _ w'.
            w'.steps
            ≡ finished (source probe) (cc_args H includes f) f (printed value probe) w.steps)
          (halting (Unfinished (source probe) (cc_args H includes f) f w.steps))
          (write_consts H probe includes f w)
  unfolding write_consts
  write_consts-finished value probe includes f w p =
      Sat-bind (write_file H f.probe_c (source probe)) _ w
        (Sat-weaken {Y = halting (λ u. u ≡ w.steps)} _ (write_file-wrote f.probe_c (source probe) w)
          (λ _ _ e. e) (λ _ _ h. h) (λ w' e. rw e not_begun) (λ _ h. h))
        λ _ w1 e1.
          Sat-bind (run_cc H (cc_args H includes f)) _ w1
            (Sat-weaken {Y = halting (λ u. u ≡ w1.steps)} _
              (run_cc-compiled (cc_args H includes f) w1) (λ _ _ e. e) (λ _ _ h. h)
              (λ w' e. rw (e, e1.1) not_compiled) (λ _ h. h))
            λ _ w2 e2.
              Sat-bind (run_probe H f.probe_bin) _ w2
                (Sat-weaken {Y = halting (λ u. u ≡ w2.steps)} _ (run_probe-ran f.probe_bin w2)
                  (λ _ _ e. e) (λ _ _ h. h) (λ w' e. rw (e, e2.1, e1.1) not_run) (λ _ h. h))
                λ text w3 e3.
                  Sat-bind (write_file H f.consts_rs text) _ w3
                    (Sat-weaken {Y = halting (λ u. u ≡ w3.steps)} _
                      (write_file-wrote f.consts_rs text w3) (λ _ _ e. e) (λ _ _ h. h)
                      (λ w' e. rw (e, e3.1, e2.1, e1.1) not_written) (λ _ h. h))
                    λ _ w4 e4.
                      let same = p.at w.sys w1.sys w2.sys w3.sys text e1.0 e2.0 e3.0 in
                      record { at = rw (e4.1, e3.1, e2.1, e1.1, same) refl }

  -- The same of the program's text and of the arguments, however these are given.
  pub write_consts-text :
      (value : List ℕ → ℕ) (probe : List Item) (includes : List (List ℕ)) (f : Files)
      (w : Building H) (code : List ℕ) (args : List (List ℕ))
      → source probe ≡ code
      → cc_args H includes f ≡ args
      → Prints value probe code args f
      → Sat
          (λ _ w'. w'.steps ≡ finished code args f (printed value probe) w.steps)
          (halting (Unfinished code args f w.steps))
          (write_consts H probe includes f w)
  write_consts-text value probe includes f w code args e q =
      subst
        (λ c.
          Prints value probe c args f
          → Sat (λ _ w'. w'.steps ≡ finished c args f (printed value probe) w.steps)
              (halting (Unfinished c args f w.steps)) (write_consts H probe includes f w))
        e
        (subst
          (λ a.
            Prints value probe (source probe) a f
            → Sat (λ _ w'. w'.steps ≡ finished (source probe) a f (printed value probe) w.steps)
                (halting (Unfinished (source probe) a f w.steps))
                (write_consts H probe includes f w))
          q (write_consts-finished value probe includes f w))
