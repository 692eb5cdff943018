-- ===== src/Build/Probe.antt =====
-- The C programs of rust/common/build.rs and rust/subscriber/build.rs: what they are written as, and
-- what they print.
use pub_sub_v4l2_dmabuf_wayl.Base.{
  ℕ, zero, suc, ◌+◌, ◌/◌, ◌%◌, ◌^◌, List, [], ◌∷◌, ◌++◌, Bool, ◌&&◌, ◌==◌, ltb, leb, if◌then◌else◌,
  length, codes,
}
use Prim.Native.String.{String}

-- A macro of the probe, by what it prints of a constant: whether it is `pub`, its Rust type, and the
-- number in at least so many hexadecimal digits, out of so many that its C type has.
pub record Macro : Type 0 where
  pub name : String
  pub visible : Bool
  pub rust_type : String
  pub width : ℕ
  pub digits : ℕ

-- A line of the program: one that prints a constant, or any other.
pub data Item : Type 0 where
  line : String → Item
  constant : Macro → String → Item

-- The text of the program.
unfoldable pub source : List Item → List ℕ
source [] = []
source (line text ∷ items) = codes text ++ (10 ∷ source items)
source (constant m name ∷ items) =
    codes "    " ++ (codes m.name ++ (40 ∷ (codes name ++ (41 ∷ 59 ∷ 10 ∷ source items))))

-- The digit `d` as `%X` prints it.
abbrev pub hex_digit : ℕ → ℕ
hex_digit d = if ltb d 10 then 48 + d else 55 + d

-- The last `k` hexadecimal digits of a number, before a text.
abbrev pub hex_onto : ℕ → ℕ → List ℕ → List ℕ
hex_onto zero n text = text
hex_onto (suc k) n text = hex_onto k (n / 16) (hex_digit (n % 16) ∷ text)

-- Zeros in front are left out while there are more than `w` digits.
abbrev pub trim : ℕ → List ℕ → List ℕ
trim w [] = []
trim w (c ∷ cs) = let rest = trim w cs in if c == 48 && leb w (length cs) then rest else c ∷ cs

-- `%0wX` or `%0wlX` of a number that has at most `k` digits.
abbrev pub hex : ℕ → ℕ → ℕ → List ℕ
hex w k n = trim w (hex_onto k n [])

-- The value after the cast to `unsigned int` or `unsigned long`.
abbrev pub cast : Macro → ℕ → ℕ
cast m n = n % 16 ^ m.digits

-- One line of the output: a Rust constant.
unfoldable pub print_constant : Macro → String → ℕ → List ℕ → List ℕ
print_constant m name n rest =
    (if m.visible then codes "pub " else [])
    ++ (codes "const "
        ++ (codes name
            ++ (58
                ∷ 32
                ∷ (codes m.rust_type
                    ++ (32 ∷ 61 ∷ 32 ∷ 48 ∷ 120 ∷ (hex m.width m.digits n ++ (59 ∷ 10 ∷ rest)))))))

-- What the program prints, where the headers give each name its number.
unfoldable pub printed : (List ℕ → ℕ) → List Item → List ℕ
unfolding print_constant
printed value [] = []
printed value (line text ∷ items) = printed value items
printed value (constant m name ∷ items) =
    print_constant m name (cast m (value (codes name))) (printed value items)
