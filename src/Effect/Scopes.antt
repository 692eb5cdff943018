-- ===== src/Effect/Scopes.antt =====
-- The rules for drops and for errors that the code looks at or ignores.
use pub_sub_v4l2_dmabuf_wayl.Effect.{
  IoError, Run, ret, fail, panic, spin, M, Result, ok, err, ◌>>◌, attempt, ignore, leave, scoped,
  starting, guarded, finally, throw, panics, pure,
}
use pub_sub_v4l2_dmabuf_wayl.Effect.Triple.{Exits, Ends, Sat, Sat-bind}

module _ {W A : Type 0} {Q : A → W → Type 0} {X : Exits W} where
  guarded_run :
      (drop : M W (Unit {0})) (w : W) (r : Run W A) (Y : Exits W)
      → Ends Q Y r
      → ((e : IoError) (w' : W) → Y.failing e w' → Sat Q X ((drop >> throw e) w'))
      → ((w' : W) → Y.panicking w' → Sat Q X ((drop >> panics) w'))
      → ((w' : W) → Y.spinning w' → X.spinning w')
      → Sat Q X (guarded drop (λ _. r) w)
  guarded_run drop w (ret a w') Y h f p s = record { at = h }
  guarded_run drop w (fail e w') Y h f p s = f e w' h
  guarded_run drop w (panic w') Y h f p s = p w' h
  guarded_run drop w (spin w') Y h f p s = record { at = s w' h }

  pub Sat-guarded :
      {Y : Exits W} (drop : M W (Unit {0})) (m : M W A) (w : W)
      → Sat Q Y (m w)
      → ((e : IoError) (w' : W) → Y.failing e w' → Sat Q X ((drop >> throw e) w'))
      → ((w' : W) → Y.panicking w' → Sat Q X ((drop >> panics) w'))
      → ((w' : W) → Y.spinning w' → X.spinning w')
      → Sat Q X (guarded drop m w)
  Sat-guarded {Y} drop m w h f p s = guarded_run drop w (m w) Y h.at f p s

  finally_run :
      (P : A → W → Type 0) (Y : Exits W) (drop : M W (Unit {0})) (w : W) (r : Run W A)
      → Ends P Y r
      → ((a : A) (w' : W) → P a w' → Sat Q X ((drop >> pure a) w'))
      → ((e : IoError) (w' : W) → Y.failing e w' → Sat Q X ((drop >> throw e) w'))
      → ((w' : W) → Y.panicking w' → Sat Q X ((drop >> panics) w'))
      → ((w' : W) → Y.spinning w' → X.spinning w')
      → Sat Q X (finally drop (λ _. r) w)
  finally_run P Y drop w (ret a w') h q f p s = q a w' h
  finally_run P Y drop w (fail e w') h q f p s = f e w' h
  finally_run P Y drop w (panic w') h q f p s = p w' h
  finally_run P Y drop w (spin w') h q f p s = record { at = s w' h }

  pub Sat-finally :
      {P : A → W → Type 0} {Y : Exits W} (drop : M W (Unit {0})) (m : M W A) (w : W)
      → Sat P Y (m w)
      → ((a : A) (w' : W) → P a w' → Sat Q X ((drop >> pure a) w'))
      → ((e : IoError) (w' : W) → Y.failing e w' → Sat Q X ((drop >> throw e) w'))
      → ((w' : W) → Y.panicking w' → Sat Q X ((drop >> panics) w'))
      → ((w' : W) → Y.spinning w' → X.spinning w')
      → Sat Q X (finally drop m w)
  Sat-finally {P} {Y} drop m w h q f p s = finally_run P Y drop w (m w) h.at q f p s

  -- Where the drop itself neither fails nor panics, it is enough to know what it makes of each exit.
  pub Sat-dropped :
      {P : A → W → Type 0} {Y : Exits W} (drop : M W (Unit {0})) (m : M W A) (w : W)
      → Sat P Y (m w)
      → ((a : A) (w' : W) → P a w' → Sat (λ _ w''. Q a w'') X (drop w'))
      → ((e : IoError) (w' : W) → Y.failing e w' → Sat (λ _ w''. X.failing e w'') X (drop w'))
      → ((w' : W) → Y.panicking w' → Sat (λ _ w''. X.panicking w'') X (drop w'))
      → ((w' : W) → Y.spinning w' → X.spinning w')
      → Sat Q X (finally drop m w)
  Sat-dropped {P} {Y} drop m w h q f p s =
      Sat-finally {Y = Y} drop m w h
        (λ a w' k. Sat-bind drop _ w' (q a w' k) (λ _ _ k'. record { at = k' }))
        (λ e w' k. Sat-bind drop _ w' (f e w' k) (λ _ _ k'. record { at = k' }))
        (λ w' k. Sat-bind drop _ w' (p w' k) (λ _ _ k'. record { at = k' })) s

-- `attempt`: a failure goes on as a value.
module _ {W A : Type 0} {Q : Result A → W → Type 0} {X : Exits W} where
  attempt_run :
      (P : A → W → Type 0) (Y : Exits W) (w : W) (r : Run W A)
      → Ends P Y r
      → ((a : A) (w' : W) → P a w' → Q (ok a) w')
      → ((e : IoError) (w' : W) → Y.failing e w' → Q (err e) w')
      → ((w' : W) → Y.panicking w' → X.panicking w')
      → ((w' : W) → Y.spinning w' → X.spinning w')
      → Sat Q X (attempt (λ _. r) w)
  attempt_run P Y w (ret a w') h q f p s = record { at = q a w' h }
  attempt_run P Y w (fail e w') h q f p s = record { at = f e w' h }
  attempt_run P Y w (panic w') h q f p s = record { at = p w' h }
  attempt_run P Y w (spin w') h q f p s = record { at = s w' h }

  pub Sat-attempt :
      {P : A → W → Type 0} {Y : Exits W} (m : M W A) (w : W)
      → Sat P Y (m w)
      → ((a : A) (w' : W) → P a w' → Q (ok a) w')
      → ((e : IoError) (w' : W) → Y.failing e w' → Q (err e) w')
      → ((w' : W) → Y.panicking w' → X.panicking w')
      → ((w' : W) → Y.spinning w' → X.spinning w')
      → Sat Q X (attempt m w)
  Sat-attempt {P} {Y} m w h q f p s = attempt_run P Y w (m w) h.at q f p s

-- `ignore`: a failure is dropped.
module _ {W A : Type 0} {Q : Unit {0} → W → Type 0} {X : Exits W} where
  ignore_run :
      (P : A → W → Type 0) (Y : Exits W) (w : W) (r : Run W A)
      → Ends P Y r
      → ((a : A) (w' : W) → P a w' → Q tt w')
      → ((e : IoError) (w' : W) → Y.failing e w' → Q tt w')
      → ((w' : W) → Y.panicking w' → X.panicking w')
      → ((w' : W) → Y.spinning w' → X.spinning w')
      → Sat Q X (ignore (λ _. r) w)
  ignore_run P Y w (ret a w') h q f p s = record { at = q a w' h }
  ignore_run P Y w (fail e w') h q f p s = record { at = f e w' h }
  ignore_run P Y w (panic w') h q f p s = record { at = p w' h }
  ignore_run P Y w (spin w') h q f p s = record { at = s w' h }

  pub Sat-ignore :
      {P : A → W → Type 0} {Y : Exits W} (m : M W A) (w : W)
      → Sat P Y (m w)
      → ((a : A) (w' : W) → P a w' → Q tt w')
      → ((e : IoError) (w' : W) → Y.failing e w' → Q tt w')
      → ((w' : W) → Y.panicking w' → X.panicking w')
      → ((w' : W) → Y.spinning w' → X.spinning w')
      → Sat Q X (ignore m w)
  Sat-ignore {P} {Y} m w h q f p s = ignore_run P Y w (m w) h.at q f p s

-- The exits of the drop of the object: it neither fails nor panics.
abbrev pub dropping : {W L : Type 0} → Exits W → Exits (L × W)
dropping X = record { failing = λ _ _. ⊥; panicking = λ _. ⊥; spinning = λ s. X.spinning s.1 }

-- `scoped`: the object is dropped however `m` ends.
module _ {W L A : Type 0} {Q : A → W → Type 0} {X : Exits W} where
  left :
      (k : W → Run W A) (r : Run (L × W) (Unit {0})) (R : W → Type 0)
      → Ends (λ _ s. R s.1) (dropping X) r
      → ((w : W) → R w → Ends Q X (k w))
      → Sat Q X (leave k r)
  left k (ret u (l, w)) R h g = record { at = g w h }
  left k (fail e s) R h g = absurd h
  left k (panic s) R h g = absurd h
  left k (spin (l, w)) R h g = record { at = h }

  scoped_run :
      (P : A → L × W → Type 0) (Y : Exits (L × W)) (l : L) (drop : M (L × W) (Unit {0})) (w : W)
      (r : Run (L × W) A)
      → Ends P Y r
      → ((s : L × W) → Y.spinning s → X.spinning s.1)
      → ((a : A) (s : L × W) → P a s → Sat (λ _ s'. Q a s'.1) (dropping X) (drop s))
      → ((e : IoError) (s : L × W)
          → Y.failing e s
          → Sat (λ _ s'. X.failing e s'.1) (dropping X) (drop s))
      → ((s : L × W) → Y.panicking s → Sat (λ _ s'. X.panicking s'.1) (dropping X) (drop s))
      → Sat Q X (scoped l drop (λ _. r) w)
  scoped_run P Y l drop w (ret a s) h z q f p = left _ (drop s) _ (q a s h).at (λ _ k. k)
  scoped_run P Y l drop w (fail e s) h z q f p = left _ (drop s) _ (f e s h).at (λ _ k. k)
  scoped_run P Y l drop w (panic s) h z q f p = left _ (drop s) _ (p s h).at (λ _ k. k)
  scoped_run P Y l drop w (spin (l', w')) h z q f p = record { at = z (l', w') h }

  pub Sat-scoped :
      {P : A → L × W → Type 0} {Y : Exits (L × W)} (l : L) (drop : M (L × W) (Unit {0}))
      (m : M (L × W) A) (w : W)
      → Sat P Y (m (l, w))
      → ((s : L × W) → Y.spinning s → X.spinning s.1)
      → ((a : A) (s : L × W) → P a s → Sat (λ _ s'. Q a s'.1) (dropping X) (drop s))
      → ((e : IoError) (s : L × W)
          → Y.failing e s
          → Sat (λ _ s'. X.failing e s'.1) (dropping X) (drop s))
      → ((s : L × W) → Y.panicking s → Sat (λ _ s'. X.panicking s'.1) (dropping X) (drop s))
      → Sat Q X (scoped l drop m w)
  Sat-scoped {P} {Y} l drop m w h z q f p = scoped_run P Y l drop w (m (l, w)) h.at z q f p

-- `starting`: what is known of the object at the end is known where it has been made.
module _ {W L A : Type 0} {Q : L × A → W → Type 0} {X : Exits W} where
  starting_run :
      (P : A → L × W → Type 0) (Y : Exits (L × W)) (l : L) (w : W) (r : Run (L × W) A)
      → Ends P Y r
      → ((a : A) (s : L × W) → P a s → Q (s.0, a) s.1)
      → ((e : IoError) (s : L × W) → Y.failing e s → X.failing e s.1)
      → ((s : L × W) → Y.panicking s → X.panicking s.1)
      → ((s : L × W) → Y.spinning s → X.spinning s.1)
      → Sat Q X (starting l (λ _. r) w)
  starting_run P Y l w (ret a s) h q f p z = record { at = q a s h }
  starting_run P Y l w (fail e s) h q f p z = record { at = f e s h }
  starting_run P Y l w (panic s) h q f p z = record { at = p s h }
  starting_run P Y l w (spin s) h q f p z = record { at = z s h }

  pub Sat-starting :
      {P : A → L × W → Type 0} {Y : Exits (L × W)} (l : L) (m : M (L × W) A) (w : W)
      → Sat P Y (m (l, w))
      → ((a : A) (s : L × W) → P a s → Q (s.0, a) s.1)
      → ((e : IoError) (s : L × W) → Y.failing e s → X.failing e s.1)
      → ((s : L × W) → Y.panicking s → X.panicking s.1)
      → ((s : L × W) → Y.spinning s → X.spinning s.1)
      → Sat Q X (starting l m w)
  Sat-starting {P} {Y} l m w h q f p z = starting_run P Y l w (m (l, w)) h.at q f p z
