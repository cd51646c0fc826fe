-- ===== src/Util/Examples.antt =====
-- The text `a b/ü` with its bytes in UTF-8.
use sylar_leo.Base.{◌<◌, ◌≡◌, refl, arith, true, [], ◌∷◌, All}
use sylar_leo.Base.Text.{Text, codes}
use sylar_leo.Util.{url_encode}

abbrev sample : Text
sample = 97 ∷ 32 ∷ 98 ∷ 47 ∷ 195 ∷ 188 ∷ []

sample-bytes : All (λ c. c < 256) sample
sample-bytes =
    (omega arith, (omega arith, (omega arith, (omega arith, (omega arith, (omega arith, tt))))))

url_encode_test : url_encode true sample ≡ codes "a+b%2F%C3%BC"
unfolding url_encode
url_encode_test = refl
