-- ===== src/FileSnapshot/Names.antt =====
-- The order of names in file_snapshot.go: that of Go's strings, character by character.
use Prim.Native.Char.{code}
use Prim.Native.String.{[], ◌∷◌}
use text.Mathlib.TextEquality.{Char-path}
use perf_raft.Prelude.{
  ◌≡◌, String, Bool, true, false, ◌||◌, ◌&&◌, ltb, ◌==◌, refl, arith, Bool-cases, inl, inr,
}
use perf_raft.FileSnapshot.Newest.{IsOrder}

unfoldable pub str_lt : String → String → Bool
str_lt [] [] = false
str_lt [] (d ∷ t) = true
str_lt (c ∷ s) [] = false
str_lt (c ∷ s) (d ∷ t) = ltb (code c) (code d) || ((code c == code d) && str_lt s t)

str_lt_trans : (a b c : String) → str_lt a b ≡ true → str_lt b c ≡ true → str_lt a c ≡ true
unfolding str_lt
str_lt_trans [] [] c h k = k
str_lt_trans [] (d ∷ t) [] h k = k
str_lt_trans [] (d ∷ t) (e ∷ u) h k = refl
str_lt_trans (c ∷ s) [] u h k = ground (arith, h)
str_lt_trans (c ∷ s) (d ∷ t) [] h k = k
str_lt_trans (c ∷ s) (d ∷ t) (e ∷ u) h k = ground (arith, h, k, str_lt_trans s t u)

str_lt_asym : (a b : String) → str_lt a b ≡ true → str_lt b a ≡ false
unfolding str_lt
str_lt_asym [] [] h = refl
str_lt_asym [] (d ∷ t) h = refl
str_lt_asym (c ∷ s) [] h = ground (arith, h)
str_lt_asym (c ∷ s) (d ∷ t) h = ground (arith, h, str_lt_asym s t)

str_lt_none : (a b : String) → str_lt a b ≡ false → str_lt b a ≡ false → a ≡ b
unfolding str_lt
str_lt_none [] [] h k = refl
str_lt_none [] (d ∷ t) h k = ground (arith, h)
str_lt_none (c ∷ s) [] h k = ground (arith, k)
str_lt_none (c ∷ s) (d ∷ t) h k =
    let rest = str_lt_none s t (ground (arith, h, k)) (ground (arith, h, k)) in
    λ i. Char-path c d (ground (arith, h, k)) i ∷ rest i

pub str_lt-IsOrder : IsOrder str_lt
str_lt-IsOrder = record {
  transitive = str_lt_trans;
  asymmetric = str_lt_asym;
  total = λ a b other h. elim (Bool-cases (str_lt b a)) [
    | inl e ↦ e
    | inr e ↦ absurd (other (str_lt_none a b h e))
  ];
}
