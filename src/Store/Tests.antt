-- ===== src/Store/Tests.antt =====
-- Concrete runs of the membership encoding (store/manifest.rs).
use software_authenticator.Base.{
  zero, suc, ◌<◌, All-append, ℕ, ◌≡◌, refl, none, some, List, [], ◌∷◌, ◌++◌, replicate, All, arith,
  bytes_eq,
}
use software_authenticator.Store.Hex.{hex}
use software_authenticator.Store.Manifest.{legacy, managed, Manifest, encode, decode, magic}
use software_authenticator.Store.Membership.{IsManifestFrom, decode-encode}
use software_authenticator.Store.Decoded.{encode-decode}

abbrev two_files : Manifest
two_files = (hex (replicate 32 0x01), legacy) ∷ (hex (replicate 32 0xab), managed) ∷ []

abbrev one_file_bytes : List ℕ
one_file_bytes = (magic ++ (0 ∷ 0 ∷ 0 ∷ 1 ∷ 1 ∷ [])) ++ replicate 32 0xab

out_of_order :
    decode (magic ++ (0 ∷ 0 ∷ 0 ∷ 2 ∷ 1 ∷ []) ++ replicate 32 0xab ++ (1 ∷ []) ++ replicate 32 0x01)
    ≡ none
unfolding decode bytes_eq
out_of_order = refl

decode-encode_example :
    (bytes : List ℕ) × (encode two_files ≡ some bytes) × (decode bytes ≡ some two_files)
decode-encode_example = decode-encode two_files ((refl, refl), ((refl, refl), tt)) (omega arith)

one_file_decoded : decode one_file_bytes ≡ some ((hex (replicate 32 0xab), managed) ∷ [])
unfolding decode bytes_eq
one_file_decoded = refl

small_bytes : (n b : ℕ) → b < 256 → All (λ b. b < 256) (replicate n b)
small_bytes zero b small = tt
small_bytes (suc n) b small = (small, small_bytes n b small)

encode-decode_example :
    IsManifestFrom none ((hex (replicate 32 0xab), managed) ∷ [])
    × (encode ((hex (replicate 32 0xab), managed) ∷ []) ≡ some one_file_bytes)
encode-decode_example =
    encode-decode one_file_bytes ((hex (replicate 32 0xab), managed) ∷ [])
      (All-append (λ b. b < 256) (magic ++ (0 ∷ 0 ∷ 0 ∷ 1 ∷ 1 ∷ [])) (replicate 32 0xab)
        (
          omega arith,
          (
            omega arith,
            (
              omega arith,
              (
                omega arith,
                (omega arith, (omega arith, (omega arith, (omega arith, (omega arith, tt))))),
              ),
            ),
          ),
        )
        (small_bytes 32 0xab (omega arith)))
      (omega arith) one_file_decoded
