-- ===== src/Build/Reading/RoundTrip.antt =====
-- The file of constants that a probe of rust/common/build.rs or rust/subscriber/build.rs prints, and
-- its reading.
use pub_sub_v4l2_dmabuf_wayl.Base.{
  ℕ, zero, suc, ◌+◌, ◌*◌, ◌/◌, ◌%◌, ◌^◌, ◌≤◌, ◌<◌, ◌≡◌, refl, ap, ◌∙◌, inl, inr, List, [], ◌∷◌,
  ◌++◌, Bool, Bool-cases, ==_iff, true, false, ◌&&◌, not, ◌==◌, some, if◌then◌else◌, arith, length,
  codes,
}
use Prim.Native.String.{String}
use pub_sub_v4l2_dmabuf_wayl.Build.Probe.{
  Macro, Item, line, constant, hex_digit, hex_onto, trim, hex, cast, print_constant, printed,
}
use pub_sub_v4l2_dmabuf_wayl.Build.Reading.{
  Declared, in_range, until, hex_value, declaration, read_constant, read_file,
}

hex_digit_read :
    (m d : ℕ) (text : List ℕ)
    → d < 16
    → hex_value m (hex_digit d ∷ text) ≡ hex_value (16 * m + d) text
hex_digit_read m d text l = ground arith

-- The digits of a number of at most `k` digits are read back.
hex_value-hex_onto :
    (k n : ℕ) (text : List ℕ) → n < 16 ^ k → hex_value 0 (hex_onto k n text) ≡ hex_value n text
hex_value-hex_onto zero n text l = ap (λ m. hex_value m text) (omega (arith, l))
hex_value-hex_onto (suc k) n text l =
    hex_value-hex_onto k (n / 16) (hex_digit (n % 16) ∷ text) (omega (arith, l))
    ∙ hex_digit_read (n / 16) (n % 16) text (omega arith)
    ∙ ap (λ m. hex_value m text) (omega arith)

hex_value-trim : (w : ℕ) (cs : List ℕ) → hex_value 0 (trim w cs) ≡ hex_value 0 cs
hex_value-trim w [] = refl
hex_value-trim w (c ∷ cs) = ground (arith, hex_value-trim w cs)

hex_value-hex : (w k n : ℕ) → n < 16 ^ k → hex_value 0 (hex w k n) ≡ some n
hex_value-hex w k n l = hex_value-trim w (hex_onto k n []) ∙ hex_value-hex_onto k n [] l

-- The characters of names, types and numbers.
abbrev is_plain : ℕ → Bool
is_plain c = not (c == 10) && not (c == 32) && not (c == 58) && not (c == 59)

abbrev pub all_plain : List ℕ → Bool
all_plain [] = true
all_plain (c ∷ cs) = is_plain c && all_plain cs

all_plain-hex_onto :
    (k n : ℕ) (text : List ℕ) → all_plain text ≡ true → all_plain (hex_onto k n text) ≡ true
all_plain-hex_onto zero n text p = p
all_plain-hex_onto (suc k) n text p =
    all_plain-hex_onto k (n / 16) (hex_digit (n % 16) ∷ text) (digit_plain (n % 16) (omega arith))
  where
    digit_plain : (d : ℕ) → d < 16 → all_plain (hex_digit d ∷ text) ≡ true
    digit_plain d l = ground (arith, p)

all_plain-trim : (w : ℕ) (cs : List ℕ) → all_plain cs ≡ true → all_plain (trim w cs) ≡ true
all_plain-trim w [] p = p
all_plain-trim w (c ∷ cs) p = ground (arith, p, all_plain-trim w cs)

plain_apart : (x c : ℕ) → is_plain x ≡ true → is_plain c ≡ false → (x == c) ≡ false
plain_apart x c p q = elim (Bool-cases (x == c)) [
  | inl same ↦ cc (p, q, ap is_plain ((==_iff x c).0 same))
  | inr other ↦ other
]

==-refl : (c : ℕ) → (c == c) ≡ true
==-refl c = (==_iff c c).1 refl

both_true : (a b : Bool) → (a && b) ≡ true → (a ≡ true) × (b ≡ true)
both_true true b e = (refl, e)
both_true false b e = cc

-- What stands before a character that is not plain.
until_found :
    (c : ℕ) (xs ys : List ℕ)
    → is_plain c ≡ false
    → all_plain xs ≡ true
    → until c (xs ++ (c ∷ ys)) ≡ some (xs, ys)
until_found c [] ys q p = rw (==-refl c) refl
until_found c (x ∷ xs) ys q p =
    rw
      (
        plain_apart x c (both_true (is_plain x) (all_plain xs) p).0 q,
        until_found c xs ys q (both_true (is_plain x) (all_plain xs) p).1,
      )
      refl

-- The lines of a probe have names and types of plain characters only.
abbrev pub all_named : List Item → Bool
all_named [] = true
all_named (line text ∷ items) = all_named items
all_named (constant m name ∷ items) =
    all_plain (codes name) && (all_plain (codes m.rust_type) && all_named items)

-- The number of each constant, cast to its C type, is in the range of its Rust type.
abbrev pub all_in_range : (List ℕ → ℕ) → List Item → Bool
all_in_range value [] = true
all_in_range value (line text ∷ items) = all_in_range value items
all_in_range value (constant m name ∷ items) =
    in_range (codes m.rust_type) (cast m (value (codes name))) && all_in_range value items

-- The constants of a probe, by the numbers that the headers give them.
abbrev pub declared : (List ℕ → ℕ) → List Item → List Declared
declared value [] = []
declared value (line text ∷ items) = declared value items
declared value (constant m name ∷ items) =
    (record {
      visible = m.visible;
      name = codes name;
      rust_type = codes m.rust_type;
      value = cast m (value (codes name));
    })
    ∷ declared value items

module _ (m : Macro) (name : String) (n : ℕ) (rest : List ℕ) where
  abbrev tail_text : List ℕ
  tail_text =
      codes "const "
      ++ (codes name
          ++ (58
              ∷ 32
              ∷ (codes m.rust_type
                  ++ (32 ∷ 61 ∷ 32 ∷ 48 ∷ 120 ∷ (hex m.width m.digits n ++ (59 ∷ 10 ∷ rest))))))

  abbrev of_macro : Declared
  of_macro = record {
    visible = m.visible;
    name = codes name;
    rust_type = codes m.rust_type;
    value = n;
  }

  declaration-tail_text :
      n < 16 ^ m.digits
      → all_plain (codes name) ≡ true
      → all_plain (codes m.rust_type) ≡ true
      → in_range (codes m.rust_type) n ≡ true
      → declaration m.visible tail_text ≡ some (of_macro, rest)
  unfolding declaration
  declaration-tail_text l p q fits =
      rw
        (
          until_found 58 (codes name)
              (32
                ∷ (codes m.rust_type
                    ++ (32 ∷ 61 ∷ 32 ∷ 48 ∷ 120 ∷ (hex m.width m.digits n ++ (59 ∷ 10 ∷ rest)))))
              refl p,
          until_found 32 (codes m.rust_type)
              (61 ∷ 32 ∷ 48 ∷ 120 ∷ (hex m.width m.digits n ++ (59 ∷ 10 ∷ rest))) refl q,
          until_found 59 (hex m.width m.digits n) (10 ∷ rest) refl (
              all_plain-trim m.width (hex_onto m.digits n [])
                (all_plain-hex_onto m.digits n [] refl)),
          hex_value-hex m.width m.digits n l,
          fits,
        )
        refl

  read_constant-print_constant :
      n < 16 ^ m.digits
      → all_plain (codes name) ≡ true
      → all_plain (codes m.rust_type) ≡ true
      → in_range (codes m.rust_type) n ≡ true
      → read_constant (print_constant m name n rest) ≡ some (of_macro, rest)
  unfolding read_constant print_constant
  read_constant-print_constant l p q fits =
      by_visibility m.visible (
        codes name
        ++ (58
            ∷ 32
            ∷ (codes m.rust_type
                ++ (32 ∷ 61 ∷ 32 ∷ 48 ∷ 120 ∷ (hex m.width m.digits n ++ (59 ∷ 10 ∷ rest))))))
      ∙ declaration-tail_text l p q fits
    where
      by_visibility :
          (v : Bool) (cs : List ℕ)
          → read_constant ((if v then codes "pub " else []) ++ (codes "const " ++ cs))
            ≡ declaration v (codes "const " ++ cs)
      by_visibility true cs = refl
      by_visibility false cs = refl

read_file_step :
    (n : ℕ) (cs rest : List ℕ) (d : Declared) (ds : List Declared)
    → read_constant cs ≡ some (d, rest)
    → read_file n rest ≡ some ds
    → read_file (suc n) cs ≡ some (d ∷ ds)
unfolding read_file read_constant declaration
read_file_step n [] rest d ds e f = cc
read_file_step n (c ∷ cs) rest d ds e f = rw (e, f) refl

pow_pos : (k : ℕ) → 0 < 16 ^ k
pow_pos zero = omega arith
pow_pos (suc k) = omega (arith, pow_pos k)

cast-lt : (m : Macro) (n : ℕ) → cast m n < 16 ^ m.digits
cast-lt m n = omega (arith, pow_pos m.digits)

-- The Rust compiler reads back what a probe prints: each of its constants, in order, with its name,
-- its type, and the number that the headers give, reduced to the width of its C type. The names and
-- the types are of plain characters, each such number is in the range of its Rust type, and there are at most as many constants as are read.
pub read_file-printed :
    (n : ℕ) (value : List ℕ → ℕ) (items : List Item)
    → all_named items ≡ true
    → all_in_range value items ≡ true
    → length (declared value items) ≤ n
    → read_file n (printed value items) ≡ some (declared value items)
unfolding printed read_file
read_file-printed n value [] p r l = refl
read_file-printed n value (line text ∷ items) p r l = read_file-printed n value items p r l
read_file-printed zero value (constant m name ∷ items) p r l = absurd (omega (arith, l))
read_file-printed (suc n) value (constant m name ∷ items) p r l =
    let ranges = both_true _ (all_in_range value items) r in
    let names = both_true (all_plain (codes name)) _ p in
    let types = both_true (all_plain (codes m.rust_type)) (all_named items) names.1 in
    read_file_step n _ (printed value items) _ (declared value items)
      (read_constant-print_constant m name (cast m (value (codes name))) (printed value items)
        (cast-lt m (value (codes name))) names.0 types.0 ranges.0)
      (read_file-printed n value items types.1 ranges.1 (omega (arith, l)))
