-- ===== src/Codec/Samples.antt =====
-- A concrete text encoding of byte strings and one of values, for the examples of other modules.
use Prim.Native.Char.{Char, code}
use crosspaste_server.Codec.{Base64, Base64Laws}
use crosspaste_server.Prelude.{
  List, String, [], ap, arith, eqb, if◌then◌else◌, refl, some, suc, zero, ℕ, ◌+◌, ◌∙◌, ◌∷◌, ◌≡◌,
}

abbrev a : Char
a = "a"

abbrev b : Char
b = "b"

unfoldable pub unary : ℕ → String → String
unary zero s = String.◌∷◌ b s
unary (suc n) s = String.◌∷◌ a (unary n s)

unfoldable pub to_unary : List ℕ → String
unfolding unary
to_unary [] = String.[]
to_unary (n ∷ bytes) = unary n (to_unary bytes)

unfoldable pub of_unary : ℕ → String → List ℕ
of_unary n String.[] = []
of_unary n (String.◌∷◌ c s) =
    let complete = of_unary 0 s in
    let open_ = of_unary (suc n) s in if eqb (code c) b'b' then n ∷ complete else open_

counted : (m n : ℕ) (xs : List ℕ) → m ≡ n → m ∷ xs ≡ n ∷ xs
counted m n xs h = ap (λ k. k ∷ xs) h

of_unary-unary : (n m : ℕ) (s : String) → of_unary m (unary n s) ≡ (m + n) ∷ of_unary 0 s
unfolding of_unary unary
of_unary-unary zero m s = counted _ _ _ (omega arith)
of_unary-unary (suc n) m s = of_unary-unary n (suc m) s ∙ counted _ _ _ (omega arith)

of_unary-to_unary : (bytes : List ℕ) → of_unary 0 (to_unary bytes) ≡ bytes
unfolding to_unary of_unary
of_unary-to_unary [] = refl
of_unary-to_unary (n ∷ bytes) =
    of_unary-unary n 0 (to_unary bytes)
    ∙ counted _ _ _ (omega arith)
    ∙ ap (◌∷◌ n) (of_unary-to_unary bytes)

abbrev pub sample_base64 : Base64
sample_base64 = record { encode = to_unary; decode = λ s. some (of_unary 0 s) }

pub sample_base64-laws : Base64Laws sample_base64
sample_base64-laws = record { decode-encode = λ bytes h. ap some (of_unary-to_unary bytes) }
