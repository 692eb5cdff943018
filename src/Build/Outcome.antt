-- ===== src/Build/Outcome.antt =====
-- rust/common/build.rs and rust/subscriber/build.rs: what a build promises.
use pub_sub_v4l2_dmabuf_wayl.Base.{
  ℕ, ◌≡◌, refl, ap, List, [], ◌∷◌, ◌++◌, true, Option, none, some, arith, length, codes,
}
use pub_sub_v4l2_dmabuf_wayl.Effect.{◌>>=◌}
use pub_sub_v4l2_dmabuf_wayl.Effect.Triple.{Sat, Sat-weaken}
use pub_sub_v4l2_dmabuf_wayl.Build.{
  Step, Host, Building, Files, join, expect, files_in, cc_args, write_consts,
}
use pub_sub_v4l2_dmabuf_wayl.Build.Probe.{Item, source, printed}
use pub_sub_v4l2_dmabuf_wayl.Build.Reading.{read_file}
use pub_sub_v4l2_dmabuf_wayl.Build.Reading.RoundTrip.{
  all_named, all_in_range, declared, read_file-printed,
}
use pub_sub_v4l2_dmabuf_wayl.Build.Scripts.{
  Unfinished, not_begun, finished, halting, Prints, write_consts-text,
}

-- The C program, what is compiled from it, and the constants, in a directory.
abbrev pub places : List ℕ → List ℕ → List ℕ → Files
places dir name consts = record {
  probe_c = join dir (name ++ codes ".c");
  probe_bin = join dir name;
  consts_rs = join dir consts;
}

-- The arguments of the C compiler: `-I` with each path, the C program, and `-o` with the result.
abbrev pub command : List (List ℕ) → Files → List (List ℕ)
command [] f = f.probe_c ∷ codes "-o" ∷ f.probe_bin ∷ []
command (p ∷ ps) f = (codes "-I" ++ p) ∷ command ps f

cc_args-command :
    (H : Host) (includes : List (List ℕ)) (f : Files) → cc_args H includes f ≡ command includes f
cc_args-command H [] f = refl
cc_args-command H (p ∷ ps) f = ap (λ rest. (codes "-I" ++ p) ∷ rest) (cc_args-command H ps f)

module _ (H : Host) (value : List ℕ → ℕ) (probe : List Item) (code name consts : List ℕ) where
  -- The C compiler of the machine and its headers, for the program of the text `code`, wherever the
  -- files are and whatever the include paths. The numbers fit the Rust types of the constants.
  pub record Toolchain : Type 0 where
    pub at :
        (dir : List ℕ) (includes : List (List ℕ))
        → Prints H value probe code
            (command includes (places dir name consts))
            (places dir name consts)
    pub fits : all_in_range value probe ≡ true

  -- The source was written, compiled and run, and the file of constants written, in this order. The
  -- file reads as the headers' numbers.
  pub record Built (dir : List ℕ) (includes : List (List ℕ)) (t u : List Step) : Type 0 where
    pub text : List ℕ
    pub steps :
        u
        ≡ finished code (command includes (places dir name consts)) (places dir name consts) text t
    pub reads : read_file (length (declared value probe)) text ≡ some (declared value probe)

  pub record Broken (t u : List Step) : Type 0 where
    pub dir : List ℕ
    pub includes : List (List ℕ)
    pub at :
        Unfinished code (command includes (places dir name consts)) (places dir name consts) t u

  pub unbroken : {t u : List Step} → u ≡ t → Broken t u
  unbroken e = record { dir = []; includes = []; at = rw e not_begun }

  write_consts-Built :
      (dir : List ℕ) (includes : List (List ℕ)) (w : Building H)
      → Toolchain
      → source probe ≡ code
      → all_named probe ≡ true
      → Sat
          (λ _ w'. Built dir includes w.steps w'.steps)
          (halting H (Broken w.steps))
          (write_consts H probe includes (files_in H dir name consts) w)
  write_consts-Built dir includes w tools same named =
      let f = places dir name consts in
      Sat-weaken {Y = halting H (Unfinished code (command includes f) f w.steps)} _
        (write_consts-text H value probe includes f w code (command includes f) same
          (cc_args-command H includes f) (tools.at dir includes))
        (λ _ w' e. record {
          text = printed value probe;
          steps = e;
          reads =
              read_file-printed (length (declared value probe)) value probe named tools.fits
                (omega arith);
        })
        (λ _ _ h. h) (λ w' b. record { dir = dir; includes = includes; at = b }) (λ _ h. h)

  -- From the directory of the output on.
  pub in_out_dir-Built :
      (includes : List (List ℕ)) (found : Option (List ℕ)) (w : Building H)
      → Toolchain
      → source probe ≡ code
      → all_named probe ≡ true
      → Sat
          (λ _ w'. (dir : List ℕ) × (found ≡ some dir) × Built dir includes w.steps w'.steps)
          (halting H (Broken w.steps))
          ((expect H found >>= λ dir. write_consts H probe includes (files_in H dir name consts)) w)
  in_out_dir-Built includes none w tools same named = record { at = unbroken refl }
  in_out_dir-Built includes (some dir) w tools same named =
      Sat-weaken {Y = halting H (Broken w.steps)} _
        (write_consts-Built dir includes w tools same named) (λ _ _ b. (dir, refl, b)) (λ _ _ h. h)
        (λ _ b. b) (λ _ h. h)
