-- ===== src/Strseg/Examples.antt =====
-- src/strseg.c: the theorems at concrete strings, and tests.
use daemonproxy.Common.{
  ◌*◌, Bool, true, some, none, [], ◌∷◌, ◌≡◌, refl, arith, codes, Bytes, ltb, if◌then◌else◌,
  half_word, neg64,
}
use daemonproxy.Strseg.{
  fields, tok_all, split_1, atoi, parse_size, size, overflows, atoi_loop, scale_size, size_suffix,
  size_mul,
}
use daemonproxy.Strseg.Token.{join, AreFields, fields-AreFields, fields-join}
use daemonproxy.Common.{◌⊎◌}
use daemonproxy.Strseg.Number.{atoi-value, parse_size-scales, si, g_capital}

-- "foo\tbar\t" has three fields.
three_fields : fields b'\t' (codes "foo\tbar\t") ≡ codes "foo" ∷ codes "bar" ∷ [] ∷ []
unfolding tok_all
three_fields = refl

parse_10k : parse_size (codes "10k rest") ≡ some (size true 10240 (codes " rest"))
unfolding parse_size atoi scale_size size_suffix size_mul
parse_10k = refl

parse_10MB : parse_size (codes "10MB") ≡ some (size true 10000000 [])
unfolding parse_size atoi scale_size size_suffix size_mul
parse_10MB = refl

fields-AreFields_example : AreFields b'\t' (codes "foo\tbar\t") (fields b'\t' (codes "foo\tbar\t"))
fields-AreFields_example = fields-AreFields b'\t' (codes "foo\tbar\t")

fields-join_example :
    fields b',' (join b',' (codes "ab" ∷ [] ∷ codes "c" ∷ [])) ≡ codes "ab" ∷ [] ∷ codes "c" ∷ []
fields-join_example =
    fields-join b',' (codes "ab") ([] ∷ codes "c" ∷ []) (omega arith) (omega arith)

abbrev CutAtComma : Bool × Bytes × Bytes → Type 0
CutAtComma (found, head, rest) = (found ≡ true) × (head ≡ codes "a") × (rest ≡ codes "b,c")

split_1_runs : CutAtComma (split_1 b',' (codes "a,b,c"))
unfolding split_1
split_1_runs = (refl, refl, refl)

atoi-value_example :
    (atoi (codes "12 x") ≡ some (12, codes " x"))
    × (atoi (codes "-12 x") ≡ some (neg64 12, codes " x"))
    × ((atoi (codes " x") ≡ none) ⊎ (codes " x" ≡ codes "-x"))
    × (atoi (codes "- x") ≡ none)
atoi-value_example = atoi-value b'1' (codes "2") (codes " x") (refl, (refl, tt)) refl

parse_size-scales_example :
    parse_size (codes "3GB;")
    ≡ some (
        if ltb (3 * 1000000000) half_word
        then size true (3 * 1000000000) (codes ";")
        else overflows)
parse_size-scales_example =
    parse_size-scales b'3' [] (codes "GB;") (codes ";") 1000000000 (refl, tt) (omega arith)
      (si g_capital)

-- 2^62 kilobytes
too_large : parse_size (codes "4611686018427387904k") ≡ some overflows
unfolding parse_size atoi atoi_loop scale_size size_suffix size_mul
too_large = refl
