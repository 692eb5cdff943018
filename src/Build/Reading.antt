-- ===== src/Build/Reading.antt =====
-- What the Rust compiler reads in the file of constants: one declaration on each line.
pub mod RoundTrip
use pub_sub_v4l2_dmabuf_wayl.Base.{
  ℕ, zero, suc, ◌+◌, ◌*◌, ◌-◌, List, [], ◌∷◌, Bool, true, false, ◌&&◌, ◌==◌, Option, none, some,
  leb, ltb, same_text, ◌||◌, ◌^◌, if◌then◌else◌, codes,
}

-- A declared constant.
pub record Declared : Type 0 where
  pub visible : Bool
  pub name : List ℕ
  pub rust_type : List ℕ
  pub value : ℕ

-- The text after a word that it begins with.
abbrev pub strip : List ℕ → List ℕ → Option (List ℕ)
strip [] cs = some cs
strip (w ∷ ws) [] = none
strip (w ∷ ws) (c ∷ cs) = let rest = strip ws cs in if c == w then rest else none

-- A text up to a character, and after it.
abbrev pub until : ℕ → List ℕ → Option (List ℕ × List ℕ)
until c [] = none
until c (x ∷ xs) =
    let rest = until c xs in
    if x == c then some ([], xs) else elim rest [ none ↦ none | some (a, b) ↦ some (x ∷ a, b) ]

-- The number that hexadecimal digits stand for, after those that are worth `n` so far.
abbrev pub hex_value : ℕ → List ℕ → Option ℕ
hex_value n [] = some n
hex_value n (c ∷ cs) =
    let decimal = hex_value (16 * n + (c - 48)) cs in
    let letter = hex_value (16 * n + (c - 55)) cs in
    if leb 48 c && leb c 57 then decimal else if leb 65 c && leb c 70 then letter else none

infixl 5 ◌>>=◌
abbrev pub ◌>>=◌ : {A B : Type 0} → Option A → (A → Option B) → Option B
o >>= f = elim o [ none ↦ none | some a ↦ f a ]

-- Whether a declaration begins with `pub `.
abbrev pub visibility : List ℕ → Bool × List ℕ
visibility cs = elim (strip (codes "pub ") cs) [ none ↦ (false, cs) | some rest ↦ (true, rest) ]

-- Whether a literal is in the range of its type; the compiler refuses one that is not. Other types
-- than those of the constants are not read.
abbrev pub in_range : List ℕ → ℕ → Bool
in_range rust_type n =
    (same_text rust_type (codes "i32") && ltb n (2 ^ 31))
    || ((same_text rust_type (codes "u32") && ltb n (2 ^ 32))
        || (same_text rust_type (codes "u64") && ltb n (2 ^ 64)))

abbrev pub guard : Bool → Option (Unit {0})
guard b = if b then some tt else none

-- What follows the visibility.
unfoldable pub declaration : Bool → List ℕ → Option (Declared × List ℕ)
declaration v cs = do
  cs1 ← strip (codes "const ") cs
  (name, cs2) ← until 58 cs1
  cs3 ← strip (32 ∷ []) cs2
  (rust_type, cs4) ← until 32 cs3
  cs5 ← strip (codes "= 0x") cs4
  (literal, cs6) ← until 59 cs5
  n ← hex_value 0 literal
  _ ← guard (in_range rust_type n)
  cs7 ← strip (10 ∷ []) cs6
  some (record { visible = v; name = name; rust_type = rust_type; value = n }, cs7)

-- One declaration, `const NAME: TYPE = 0xDIGITS;` on its line.
unfoldable pub read_constant : List ℕ → Option (Declared × List ℕ)
read_constant cs = let (v, rest) = visibility cs in declaration v rest

-- A file of at most so many declarations.
unfoldable pub read_file : ℕ → List ℕ → Option (List Declared)
read_file n [] = some []
read_file zero (c ∷ cs) = none
read_file (suc n) (c ∷ cs) = do
  (d, rest) ← read_constant (c ∷ cs)
  ds ← read_file n rest
  some (d ∷ ds)
