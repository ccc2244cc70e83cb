-- ===== src/Lakehouse/Exporter/Numerals.antt =====
-- The numerals that strftime writes in lakehouse/exporter.py.
use Prim.Native.Char.{Char, code}
use Prim.Native.String.{◌++◌ as ◌<>◌}
use Prim.Native.String.append.{nil, cons}
use text.Mathlib.TextLemmas.{append_assoc, append-nil}
use crypto_streaming_lakehou.Base.{
  ℕ, zero, suc, ◌/◌, ◌%◌, ◌<◌, ◌+◌, String, List, [], ◌∷◌, ◌≡◌, refl, sym, ap, ◌∙◌, subst, length,
  arith,
}
use crypto_streaming_lakehou.Base.Digits.{value, IsDigits, IsNumeral}
use crypto_streaming_lakehou.Lakehouse.Exporter.{digit, two_digits, four_digits}

char-IsDigits :
    (c : Char) (d : ℕ) (s : String) (ds : List ℕ)
    → code c ≡ b'0' + d
    → d < 10
    → IsDigits ds s
    → IsDigits (d ∷ ds) (String.◌∷◌ c "" <> s)
char-IsDigits c d s ds e h k = rw (cons, nil) (ground (arith))

digit-IsDigits :
    (d : ℕ) (s : String) (ds : List ℕ) → d < 10 → IsDigits ds s → IsDigits (d ∷ ds) (digit d <> s)
digit-IsDigits zero s ds h k = char-IsDigits "0" 0 s ds refl h k
digit-IsDigits (suc zero) s ds h k = char-IsDigits "1" 1 s ds refl h k
digit-IsDigits (suc (suc zero)) s ds h k = char-IsDigits "2" 2 s ds refl h k
digit-IsDigits (suc (suc (suc zero))) s ds h k = char-IsDigits "3" 3 s ds refl h k
digit-IsDigits (suc (suc (suc (suc zero)))) s ds h k = char-IsDigits "4" 4 s ds refl h k
digit-IsDigits (suc (suc (suc (suc (suc zero))))) s ds h k = char-IsDigits "5" 5 s ds refl h k
digit-IsDigits (suc (suc (suc (suc (suc (suc zero)))))) s ds h k = char-IsDigits "6" 6 s ds refl h k
digit-IsDigits (suc (suc (suc (suc (suc (suc (suc zero))))))) s ds h k =
    char-IsDigits "7" 7 s ds refl h k
digit-IsDigits (suc (suc (suc (suc (suc (suc (suc (suc zero)))))))) s ds h k =
    char-IsDigits "8" 8 s ds refl h k
digit-IsDigits (suc (suc (suc (suc (suc (suc (suc (suc (suc zero))))))))) s ds h k =
    char-IsDigits "9" 9 s ds refl h k
digit-IsDigits (suc (suc (suc (suc (suc (suc (suc (suc (suc (suc n)))))))))) s ds h k =
    absurd (omega arith)

two_digits-IsDigits :
    (n : ℕ) (s : String) (ds : List ℕ)
    → IsDigits ds s
    → IsDigits ((n / 10 % 10) ∷ (n % 10) ∷ ds) (two_digits n <> s)
unfolding two_digits
two_digits-IsDigits n s ds k =
    subst (IsDigits ((n / 10 % 10) ∷ (n % 10) ∷ ds))
      (sym (append_assoc (digit (n / 10 % 10)) (digit (n % 10)) s))
      (digit-IsDigits (n / 10 % 10) (digit (n % 10) <> s) ((n % 10) ∷ ds) (omega arith)
        (digit-IsDigits (n % 10) s ds (omega arith) k))

two_digits_alone : (n : ℕ) → IsDigits ((n / 10 % 10) ∷ (n % 10) ∷ []) (two_digits n)
two_digits_alone n =
    subst (IsDigits ((n / 10 % 10) ∷ (n % 10) ∷ [])) (append-nil (two_digits n))
      (two_digits-IsDigits n "" [] (refl, refl))

pub two_digits-IsNumeral : (n : ℕ) → n < 100 → IsNumeral 2 n (two_digits n)
two_digits-IsNumeral n h =
    let (e, f) = two_digits_alone n in (ap length e, f, ap value e ∙ omega arith)

pub four_digits-IsNumeral : (n : ℕ) → n < 10000 → IsNumeral 4 n (four_digits n)
unfolding four_digits
four_digits-IsNumeral n h =
    let m = n / 100 in
    let ds = (m / 10 % 10) ∷ (m % 10) ∷ (n / 10 % 10) ∷ (n % 10) ∷ [] in
    let (e, f) : IsDigits ds (two_digits m <> two_digits n) =
      two_digits-IsDigits m (two_digits n) ((n / 10 % 10) ∷ (n % 10) ∷ []) (two_digits_alone n) in
    (ap length e, f, ap value e ∙ omega arith)
