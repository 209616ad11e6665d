-- ===== src/Expect/Examples.antt =====
-- A control of one finding.
use pg_fuzz.Base.{
  ◌≡◌, refl, List, [], ◌∷◌, ◌++◌, Text, codes, length, trim_space, has_prefix, split_on,
}
use pg_fuzz.Expect.Control.{load, load_line}

abbrev row : Text
row =
    codes "mul_var"
    ++ (b'\t' ∷ (codes "pg17,pg18" ++ (b'\t' ∷ (codes "numeric.c" ++ (b'\t' ∷ codes "overflow")))))

abbrev lines : List Text
lines = codes "# function" ∷ row ∷ codes "short" ∷ []

one_row : length (load lines) ≡ 1
unfolding load load_line trim_space has_prefix split_on
one_row = refl

abbrev seen : List Text
seen = codes "mul_var" ∷ []
