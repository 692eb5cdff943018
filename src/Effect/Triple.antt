-- ===== src/Effect/Triple.antt =====
-- What holds when a computation ends: one condition on a result, and one for each other exit.
use pub_sub_v4l2_dmabuf_wayl.Base.{◌≡◌, refl, Bool, true, false, if◌then◌else◌}
use pub_sub_v4l2_dmabuf_wayl.Effect.{IoError, Run, ret, fail, panic, spin, M, ◌>>=◌, lift}

-- The conditions on a failure, a panic and the end of the fuel.
pub record Exits (W : Type 0) : Type 1 where
  pub failing : IoError → W → Type 0
  pub panicking : W → Type 0
  pub spinning : W → Type 0

abbrev pub Ends : {W A : Type 0} → (A → W → Type 0) → Exits W → Run W A → Type 0
Ends Q X (ret a w) = Q a w
Ends Q X (fail e w) = X.failing e w
Ends Q X (panic w) = X.panicking w
Ends Q X (spin w) = X.spinning w

pub record Sat {W A : Type 0} (Q : A → W → Type 0) (X : Exits W) (r : Run W A) : Type 0 where
  pub at : Ends Q X r

module _ {W A B : Type 0} {R : B → W → Type 0} {X : Exits W} where
  bind_run :
      (Q : A → W → Type 0) (f : A → M W B) (w : W) (r : Run W A)
      → Ends Q X r
      → ((a : A) (w' : W) → Q a w' → Sat R X (f a w'))
      → Sat R X (((λ _. r) >>= f) w)
  bind_run Q f w (ret a w') h k = k a w' h
  bind_run Q f w (fail e w') h k = record { at = h }
  bind_run Q f w (panic w') h k = record { at = h }
  bind_run Q f w (spin w') h k = record { at = h }

  -- The rest of a block starts where its first step has returned.
  pub Sat-bind :
      {Q : A → W → Type 0} (m : M W A) (f : A → M W B) (w : W)
      → Sat Q X (m w)
      → ((a : A) (w' : W) → Q a w' → Sat R X (f a w'))
      → Sat R X ((m >>= f) w)
  Sat-bind {Q} m f w s k = bind_run Q f w (m w) s.at k

  known_run :
      (Q : A → W → Type 0) (f : A → M W B) (w : W) (r s : Run W A)
      → Ends Q X r
      → s ≡ r
      → ((a : A) (w' : W) → s ≡ ret a w' → Q a w' → Sat R X (f a w'))
      → Sat R X (((λ _. r) >>= f) w)
  known_run Q f w (ret a w') s h e k = k a w' e h
  known_run Q f w (fail x w') s h e k = record { at = h }
  known_run Q f w (panic w') s h e k = record { at = h }
  known_run Q f w (spin w') s h e k = record { at = h }

  -- As Sat-bind, with the equation that says what the first step has returned.
  pub Sat-bind_known :
      {Q : A → W → Type 0} (m : M W A) (f : A → M W B) (w : W)
      → Sat Q X (m w)
      → ((a : A) (w' : W) → m w ≡ ret a w' → Q a w' → Sat R X (f a w'))
      → Sat R X ((m >>= f) w)
  Sat-bind_known {Q} m f w s k = known_run Q f w (m w) (m w) s.at refl k

module _ {W A : Type 0} {Q : A → W → Type 0} {X : Exits W} where
  pub Sat-if :
      (b : Bool) (m n : M W A) (w : W)
      → (b ≡ true → Sat Q X (m w))
      → (b ≡ false → Sat Q X (n w))
      → Sat Q X ((if b then m else n) w)
  Sat-if true m n w yes' no' = yes' refl
  Sat-if false m n w yes' no' = no' refl

  pub Sat-if_run :
      (b : Bool) (r s : Run W A)
      → (b ≡ true → Sat Q X r)
      → (b ≡ false → Sat Q X s)
      → Sat Q X (if b then r else s)
  Sat-if_run true r s yes' no' = yes' refl
  Sat-if_run false r s yes' no' = no' refl

  weaken_run :
      (P : A → W → Type 0) (Y : Exits W) (r : Run W A)
      → Ends P Y r
      → ((a : A) (w : W) → P a w → Q a w)
      → ((e : IoError) (w : W) → Y.failing e w → X.failing e w)
      → ((w : W) → Y.panicking w → X.panicking w)
      → ((w : W) → Y.spinning w → X.spinning w)
      → Ends Q X r
  weaken_run P Y (ret a w) h q f p s = q a w h
  weaken_run P Y (fail e w) h q f p s = f e w h
  weaken_run P Y (panic w) h q f p s = p w h
  weaken_run P Y (spin w) h q f p s = s w h

  pub Sat-weaken :
      {P : A → W → Type 0} {Y : Exits W} (r : Run W A)
      → Sat P Y r
      → ((a : A) (w : W) → P a w → Q a w)
      → ((e : IoError) (w : W) → Y.failing e w → X.failing e w)
      → ((w : W) → Y.panicking w → X.panicking w)
      → ((w : W) → Y.spinning w → X.spinning w)
      → Sat Q X r
  Sat-weaken {P} {Y} r h q f p s = record { at = weaken_run P Y r h.at q f p s }

-- The conditions of a computation beside an object that it does not touch.
abbrev pub beside : {W L : Type 0} → L → Exits (L × W) → Exits W
beside l X = record {
  failing = λ e w. X.failing e (l, w);
  panicking = λ w. X.panicking (l, w);
  spinning = λ w. X.spinning (l, w);
}

lift_run :
    {W L A : Type 0} (Q : A → L × W → Type 0) (X : Exits (L × W)) (l : L) (w : W) (r : Run W A)
    → Ends (λ a w'. Q a (l, w')) (beside l X) r
    → Ends Q X (lift (λ _. r) (l, w))
lift_run Q X l w (ret a w') h = h
lift_run Q X l w (fail e w') h = h
lift_run Q X l w (panic w') h = h
lift_run Q X l w (spin w') h = h

pub Sat-lift :
    {W L A : Type 0} {Q : A → L × W → Type 0} {X : Exits (L × W)} (m : M W A) (l : L) (w : W)
    → Sat (λ a w'. Q a (l, w')) (beside l X) (m w)
    → Sat Q X (lift m (l, w))
Sat-lift {Q} {X} m l w s = record { at = lift_run Q X l w (m w) s.at }

module _ {W L A B : Type 0} {R : B → L × W → Type 0} {X : Exits (L × W)} where
  lift_bind_run :
      (Q : A → W → Type 0) (f : A → M (L × W) B) (l : L) (w : W) (r : Run W A)
      → Ends Q (beside l X) r
      → ((a : A) (w' : W) → Q a w' → Sat R X (f a (l, w')))
      → Sat R X ((lift (λ _. r) >>= f) (l, w))
  lift_bind_run Q f l w (ret a w') h k = k a w' h
  lift_bind_run Q f l w (fail e w') h k = record { at = h }
  lift_bind_run Q f l w (panic w') h k = record { at = h }
  lift_bind_run Q f l w (spin w') h k = record { at = h }

  pub Sat-bind_lift :
      {Q : A → W → Type 0} (m : M W A) (f : A → M (L × W) B) (l : L) (w : W)
      → Sat Q (beside l X) (m w)
      → ((a : A) (w' : W) → Q a w' → Sat R X (f a (l, w')))
      → Sat R X ((lift m >>= f) (l, w))
  Sat-bind_lift {Q} m f l w s k = lift_bind_run Q f l w (m w) s.at k

-- Two conditions at each exit.
abbrev pub both : {W : Type 0} → Exits W → Exits W → Exits W
both X Y = record {
  failing = λ e w. X.failing e w × Y.failing e w;
  panicking = λ w. X.panicking w × Y.panicking w;
  spinning = λ w. X.spinning w × Y.spinning w;
}

both_run :
    {W A : Type 0} (P Q : A → W → Type 0) (X Y : Exits W) (r : Run W A)
    → Ends P X r
    → Ends Q Y r
    → Ends (λ a w. P a w × Q a w) (both X Y) r
both_run P Q X Y (ret a w) h k = (h, k)
both_run P Q X Y (fail e w) h k = (h, k)
both_run P Q X Y (panic w) h k = (h, k)
both_run P Q X Y (spin w) h k = (h, k)

pub Sat-both :
    {W A : Type 0} {P Q : A → W → Type 0} {X Y : Exits W} (r : Run W A)
    → Sat P X r
    → Sat Q Y r
    → Sat (λ a w. P a w × Q a w) (both X Y) r
Sat-both {P} {Q} {X} {Y} r h k = record { at = both_run P Q X Y r h.at k.at }
