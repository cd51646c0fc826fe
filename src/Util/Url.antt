-- ===== src/Util/Url.antt =====
-- `UrlEncode` and `UrlDecode` against each other.
use sylar_leo.Base.{
  ℕ, ◌+◌, ◌*◌, ◌/◌, ◌%◌, ◌<◌, ◌≡◌, ◌≢◌, refl, ap, ◌∙◌, Bool, true, false, ◌&&◌, [], ◌∷◌, All, arith,
  inl, inr, Bool-cases, if◌then◌else◌, ◌==◌,
}
use sylar_leo.Base.Text.{Text}
use sylar_leo.Util.{url_encode, url_decode, char_is_unreserved, hexdigit, is_xdigit, xdigit_value}

-- A byte that is not escaped is taken as it is.
decode_plain :
    (b : Bool) (c : ℕ) (s : Text)
    → (c == b'%') ≡ false
    → url_decode b (c ∷ s) ≡ (if (c == b'+') && b then b' ' else c) ∷ url_decode b s
unfolding url_decode
decode_plain b c [] h = refl
decode_plain b c (x ∷ []) h = refl
decode_plain b c (x ∷ y ∷ s) h = rw h

decode_escaped :
    (b : Bool) (h l : ℕ) (s : Text)
    → is_xdigit h ≡ true
    → is_xdigit l ≡ true
    → url_decode b (b'%' ∷ h ∷ l ∷ s) ≡ (xdigit_value h * 16 + xdigit_value l) ∷ url_decode b s
unfolding url_decode
decode_escaped b h l s p q = rw (p, q)

hexdigit_lem : (n : ℕ) → n < 16 → (is_xdigit (hexdigit n) ≡ true) × (xdigit_value (hexdigit n) ≡ n)
hexdigit_lem n h = ground arith

encoded_plain :
    (b : Bool) (c : ℕ) (s : Text)
    → char_is_unreserved c ≡ true
    → url_decode b (c ∷ s) ≡ c ∷ url_decode b s
encoded_plain b c s h =
    decode_plain b c s (ground arith) ∙ ap (λ x. x ∷ url_decode b s) (ground arith)

-- For every text of bytes, and with or without `+` for spaces, decoding undoes encoding.
pub url_decode-url_encode :
    (b : Bool) (s : Text) → All (λ c. c < 256) s → url_decode b (url_encode b s) ≡ s
unfolding url_encode
url_decode-url_encode b [] h = unfold url_decode in refl
url_decode-url_encode b (c ∷ s) h =
    let ih = url_decode-url_encode b s h.1 in
    elim (Bool-cases (char_is_unreserved c)) [
      | inl free ↦ rw free (encoded_plain b c (url_encode b s) free ∙ ap (λ t. c ∷ t) ih)
      | inr reserved ↦ elim (Bool-cases ((c == b' ') && b)) [
        | inl space ↦
            rw (reserved, space)
              (decode_plain b b'+' (url_encode b s) refl ∙ ground (arith, space, ih))
        | inr other ↦
            let (p, e) = hexdigit_lem (c / 16) (omega (arith, h.0)) in
            let (q, f) = hexdigit_lem (c % 16) (omega arith) in
            rw (reserved, other)
              (decode_escaped b (hexdigit (c / 16)) (hexdigit (c % 16)) (url_encode b s) p q
                ∙ ground (arith, e, f, ih))
      ]
    ]

abbrev pub Without : ℕ → Text → Type 0
Without c = All (λ x. x ≢ c)

-- No byte of an encoded text is an ampersand.
pub url_encode-Without :
    (b : Bool) (s : Text) → All (λ c. c < 256) s → Without b'&' (url_encode b s)
unfolding url_encode
url_encode-Without b [] h = tt
url_encode-Without b (c ∷ s) h = elim (Bool-cases (char_is_unreserved c)) [
  | inl free ↦ rw free ((λ e. absurd (ground (arith, free, e))), url_encode-Without b s h.1)
  | inr reserved ↦ elim (Bool-cases ((c == b' ') && b)) [
    | inl space ↦ rw (reserved, space) ((λ e. omega (arith, e)), url_encode-Without b s h.1)
    | inr other ↦
        rw (reserved, other)
          (
            (λ e. omega (arith, e)),
            ((λ e. no_digit (c / 16) e), ((λ e. no_digit (c % 16) e), url_encode-Without b s h.1)),
          )
  ]
]
  where
    no_digit : (n : ℕ) → hexdigit n ≢ b'&'
    no_digit n e = ground (arith, e)
