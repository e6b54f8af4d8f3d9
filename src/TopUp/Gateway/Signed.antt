-- ===== src/TopUp/Gateway/Signed.antt =====
-- What VNPay's link is signed with passes the check of what VNPay sends back.
use package.text.Mathlib.TextPositions.{eq_refl}
use ai_cinema_be.Common.{
  ==_iff, eq_iff, ◌≡◌, refl, ap, true, false, some, String, [], ◌∷◌, ◌++◌, map, str_eq, Bool-cases,
  inl, inr,
}
use ai_cinema_be.Common.Lists.{All, length}
use ai_cinema_be.Common.Text.{codes}
use ai_cinema_be.TopUp.Callback.{Raw, text, field}
use ai_cinema_be.TopUp.Gateway.Crypto.{Platform, secure_compare}
use ai_cinema_be.TopUp.Gateway.Vnpay.{
  Params, is_hash, is_hash_field, sign_vnpay_params, signed_fields, verify_vnpay_signature,
}

-- The fields as they come back in a query, decoded, and the hash after them.
abbrev pub query_of : Params → String → Raw
query_of params hash =
    map (λ (f : String × String). (f.0, text f.1)) params ++ ("vnp_SecureHash", text hash) ∷ []

-- None of the fields has the name of the hash.
abbrev pub HasNoHash : Params → Type 0
HasNoHash = All (λ (f : String × String). is_hash_field f.0 ≡ false)

hash_found :
    (params : Params) (hash : String)
    → HasNoHash params
    → field "vnp_SecureHash" (query_of params hash) ≡ some (text hash)
unfolding field
hash_found [] hash h = refl
hash_found (f ∷ params) hash (h, hs) = elim (Bool-cases (str_eq f.0 "vnp_SecureHash")) [
  | inl t ↦ absurd (cc (rw t at h))
  | inr t ↦ rw t (hash_found params hash hs)
]

module _ (js : Platform) where
  fields_found :
      (params : Params) (hash : String)
      → HasNoHash params
      → signed_fields js (query_of params hash) ≡ some params
  unfolding signed_fields
  fields_found [] hash h = refl
  fields_found (f ∷ params) hash (h, hs) = rw (h, fields_found params hash hs) refl

  -- A hash is not an empty text.
  same_hash : (hash : String) → is_hash hash ≡ true → secure_compare hash hash ≡ true
  unfolding is_hash secure_compare
  same_hash hash h = elim (Bool-cases (str_eq hash "")) [
    | inl t ↦ absurd (cc (ap is_hash ((eq_iff hash "").0 t), h))
    | inr t ↦ rw (eq_refl hash, t, (==_iff (length (codes hash)) (length (codes hash))).1 refl) refl
  ]

  -- The fields of a link, with the hash that they were signed with, pass the check under the same
  -- secret, where no field is named as the hash is, and the digest is a text of 128 hexadecimal digits.
  pub verify-sign :
      (params : Params) (secret : String)
      → HasNoHash params
      → is_hash (sign_vnpay_params js params secret) ≡ true
      → verify_vnpay_signature js (query_of params (sign_vnpay_params js params secret)) secret
        ≡ true
  unfolding verify_vnpay_signature
  verify-sign params secret n h =
      rw
        (
          hash_found params (sign_vnpay_params js params secret) n,
          h,
          fields_found params (sign_vnpay_params js params secret) n,
        )
        (same_hash (sign_vnpay_params js params secret) h)
