-- ===== src/Cbor/Tests.antt =====
-- Concrete runs of the canonical CBOR helpers (cbor.rs).
use software_authenticator.Base.{
  ℕ, suc, ◌<◌, ◌≤◌, ◌≡◌, ◌↔◌, refl, ap, inl, inr, Option, none, some, List, [], ◌∷◌, length, arith,
  All,
}
use software_authenticator.Cbor.Header.{max_nesting, header, item_end}
use software_authenticator.Cbor.Canonical.{canonical_key_order, canonical_item_end}
use software_authenticator.Cbor.Grammar.{IsByte, IsRising, IsItem}
use software_authenticator.Cbor.Request.{
  raw_map_value, copy_with_unassigned_simple_values_undefined, request_parameters,
}
use software_authenticator.Cbor.Exact.{canonical_item_end_iff}
use software_authenticator.Cbor.Decoding.{
  IsDecoded, request_parameters-IsDecoded, item_end-canonical_item_end, copy-canonical_item_end,
}
use software_authenticator.Cbor.Bounds.{item_end-IsWithin}
use software_authenticator.Cbor.Raw.{Looks, raw_map_value-Looks}

-- {1: h'AA', 3: simple(0)}
abbrev payload : List ℕ
payload = 0xa2 ∷ 0x01 ∷ 0x41 ∷ 0xaa ∷ 0x03 ∷ 0xe0 ∷ []

payload_bytes : All IsByte payload
payload_bytes =
    (omega arith, (omega arith, (omega arith, (omega arith, (omega arith, (omega arith, tt))))))

canonical_payload : canonical_item_end payload max_nesting 0 ≡ some 6
unfolding canonical_item_end header canonical_key_order
canonical_payload = refl

-- The same map with its keys the other way round.
unsorted_payload :
    canonical_item_end (0xa2 ∷ 0x03 ∷ 0xe0 ∷ 0x01 ∷ 0x41 ∷ 0xaa ∷ []) max_nesting 0 ≡ none
unfolding canonical_item_end header canonical_key_order
unsorted_payload = refl

copied_payload :
    copy_with_unassigned_simple_values_undefined payload (suc max_nesting) 0
    ≡ some (6, 0xa2 ∷ 0x01 ∷ 0x41 ∷ 0xaa ∷ 0x03 ∷ 0xf7 ∷ [])
unfolding copy_with_unassigned_simple_values_undefined header item_end
copied_payload = refl

canonical_item_end_iff_example :
    (canonical_item_end payload max_nesting 0 ≡ some (length payload)) ↔ IsItem max_nesting payload
canonical_item_end_iff_example =
    canonical_item_end_iff payload max_nesting payload_bytes (omega arith)

request_parameters-IsDecoded_example :
    IsDecoded (λ out. some out) payload (request_parameters (λ out. some out) payload)
request_parameters-IsDecoded_example =
    request_parameters-IsDecoded (λ out. some out) payload payload_bytes (omega arith)

item_end-canonical_item_end_example : item_end payload (suc max_nesting) 0 ≡ some 6
item_end-canonical_item_end_example =
    item_end-canonical_item_end payload max_nesting 0 6 payload_bytes (omega arith)
      canonical_payload

copy-canonical_item_end_example :
    (out : List ℕ) × (copy_with_unassigned_simple_values_undefined payload (suc max_nesting) 0
      ≡ some (6, out))
copy-canonical_item_end_example =
    copy-canonical_item_end payload max_nesting 0 6 payload_bytes (omega arith) canonical_payload

abbrev pairs : List (List ℕ × List ℕ)
pairs = (0x01 ∷ [], 0x41 ∷ 0xaa ∷ []) ∷ (0x03 ∷ [], 0xe0 ∷ []) ∷ []

integer-IsItem : (n : ℕ) → n < 24 → IsItem 15 (n ∷ [])
integer-IsItem n small =
    inl (inl (inl (0, n, omega arith, inl (small, ap (λ m. m ∷ []) (omega arith)))))

pairs_rise : IsRising (IsItem 15) none pairs
pairs_rise = (
  (
    integer-IsItem 1 (omega arith),
    inl (
        inl
          (inr (2, 0x41 ∷ [], 0xaa ∷ [], omega arith, omega arith, inl (omega arith, refl), refl))),
    tt,
  ),
  (
    (
      integer-IsItem 3 (omega arith),
      inl (inr (inl (0, inl (omega arith, refl)))),
      inr (refl, inr (refl, inl (omega arith))),
    ),
    tt,
  ),
)

raw_map_value-Looks_example :
    (r : Option (List ℕ)) × Looks 3 pairs r × (raw_map_value payload 3 ≡ some r)
raw_map_value-Looks_example =
    raw_map_value-Looks (0xa2 ∷ []) pairs 3 (inl (omega arith, refl)) pairs_rise (omega arith)

-- A byte string under a tag, which the canonical form does not allow.
abbrev tagged : List ℕ
tagged = 0xc0 ∷ 0x41 ∷ 0xaa ∷ []

tagged_string : item_end tagged 2 0 ≡ some 3
unfolding item_end header
tagged_string = refl

item_end-IsWithin_example : (0 < 3) × (3 ≤ length tagged)
item_end-IsWithin_example = item_end-IsWithin tagged 2 0 3 tagged_string
