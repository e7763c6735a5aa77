-- ===== src/Cbor/Decoding.antt =====
-- What `request_parameters` (cbor.rs) accepts, and what it hands to ciborium.
use software_authenticator.Base.{
  ◌⊎◌, inl, inr, ℕ, suc, ◌+◌, ◌≤◌, ◌≡◌, ◌==◌, refl, ap, sym, ◌∙◌, arith, true, false, Option, none,
  some, List, [], Bool-cases, length, append-nil, u64_max, All, ==_iff, WhenSome-some,
}
use software_authenticator.Pin.Types.{Result, ok, err}
use software_authenticator.Cbor.Header.{max_nesting, item_end}
use software_authenticator.Cbor.Canonical.{canonical_item_end}
use software_authenticator.Cbor.Grammar.{IsByte, IsItem}
use software_authenticator.Cbor.Request.{
  ctap2_err_invalid_cbor, copy_with_unassigned_simple_values_undefined, decoded, ends_at,
  request_parameters,
}
use software_authenticator.Cbor.Found.{Found}
use software_authenticator.Cbor.Accepted.{canonical_item_end-Sound}
use software_authenticator.Cbor.WellFormed.{item_end-IsItem}
use software_authenticator.Cbor.Replaced.{IsCopy}
use software_authenticator.Cbor.Copy.{IsCopy-IsItem}
use software_authenticator.Cbor.Exact.{canonical_item_end_iff}

-- What ciborium makes of the bytes.
abbrev pub parameters_of {ℓ} : {Entries : Type ℓ} → Option Entries → Result Entries
parameters_of none = err ctap2_err_invalid_cbor
parameters_of (some entries) = ok entries

-- The payload is canonical, its copy is made, and the request is what ciborium makes of the copy; or
-- the payload is not canonical, and the request is refused.
abbrev pub IsDecoded {ℓ} :
    {Entries : Type ℓ} (decode : List ℕ → Option Entries) → List ℕ → Result Entries → Type ℓ
IsDecoded decode payload r =
    (IsItem max_nesting payload
      × ((out : List ℕ) × IsCopy max_nesting payload out × (r ≡ parameters_of (decode out))))
    ⊎ ((IsItem max_nesting payload → ⊥) × (r ≡ err ctap2_err_invalid_cbor))

ends_at-eq : (o : Option ℕ) (size : ℕ) → ends_at o size ≡ true → o ≡ some size
ends_at-eq none size e = absurd (ground arith)
ends_at-eq (some end) size e = ap some ((==_iff end size).0 e)

decoded-parameters {ℓ} :
    {Entries : Type ℓ} (decode : List ℕ → Option Entries) (size end : ℕ) (out : List ℕ)
    → end ≡ size
    → decoded decode size (some (end, out)) ≡ parameters_of (decode out)
decoded-parameters {Entries = Entries} decode size end out same =
    rw (whole) (by_answer (decode out))
  where
    whole : (end == size) ≡ true
    whole = (==_iff end size).1 same

    by_answer :
        (o : Option Entries)
        → Path
            (Result Entries)
            (elim o [ none ↦ err ctap2_err_invalid_cbor | some entries ↦ ok entries ])
            (parameters_of o)
    by_answer none = refl
    by_answer (some entries) = refl

ends_at-false : (o : Option ℕ) (size : ℕ) → ends_at o size ≡ false → o ≡ some size → ⊥
ends_at-false none size other e = ground arith
ends_at-false (some end) size other e = ground arith

-- For every payload of less than 2 ^ 64 bytes and every reader: a payload that is one canonical item of
-- at most 16 levels reaches the reader with its unassigned simple values replaced by `undefined` and
-- nothing else changed, since the copy never runs out of the depth it is given; every other payload is
-- refused with CTAP2_ERR_INVALID_CBOR.
pub request_parameters-IsDecoded {ℓ} :
    {Entries : Type ℓ} (decode : List ℕ → Option Entries) (payload : List ℕ)
    → All IsByte payload
    → length payload ≤ u64_max
    → IsDecoded decode payload (request_parameters decode payload)
unfolding request_parameters
request_parameters-IsDecoded decode payload bytes small =
    elim (Bool-cases (ends_at (canonical_item_end payload max_nesting 0) (length payload))) [
      | inl ends ↦
          let is_item =
            (canonical_item_end_iff payload max_nesting bytes small).0
              (ends_at-eq (canonical_item_end payload max_nesting 0) (length payload) ends) in
          let (out, is_copy, copied) =
            IsCopy-IsItem payload max_nesting small 0 payload [] is_item
              (sym (append-nil payload)) in
          inl (
            is_item,
            (
              out,
              is_copy,
              rw (ends, copied)
                  (decoded-parameters decode (length payload) (0 + length payload) out
                    (omega arith)),
            ),
          )
      | inr other ↦ inr (
        λ is_item.
            ends_at-false (canonical_item_end payload max_nesting 0) (length payload) other
              ((canonical_item_end_iff payload max_nesting bytes small).1 is_item),
        rw (other),
      )
    ]

-- Where the walk that insists on the canonical form ends, the walk over any well-formed item with one
-- level to spare ends too.
pub item_end-canonical_item_end :
    (bytes : List ℕ) (levels pos end : ℕ)
    → All IsByte bytes
    → length bytes ≤ u64_max
    → canonical_item_end bytes levels pos ≡ some end
    → item_end bytes (suc levels) pos ≡ some end
item_end-canonical_item_end bytes levels pos end all small ends = at (
    WhenSome-some (Found (IsItem levels) bytes pos) (canonical_item_end bytes levels pos) end ends
      (canonical_item_end-Sound bytes levels all pos))
  where
    at : Found (IsItem levels) bytes pos end → item_end bytes (suc levels) pos ≡ some end
    at (item, is_item, stands, to) =
        item_end-IsItem bytes levels small pos item _ is_item stands ∙ ap some (sym to)

-- The recursion of the copy, which has no limit of its own, goes no deeper than the walk over the
-- canonical form did: where that walk ends within some levels, the copy with one level more ends at the
-- same place.
pub copy-canonical_item_end :
    (bytes : List ℕ) (levels pos end : ℕ)
    → All IsByte bytes
    → length bytes ≤ u64_max
    → canonical_item_end bytes levels pos ≡ some end
    → (out : List ℕ) × (copy_with_unassigned_simple_values_undefined bytes (suc levels) pos
        ≡ some (end, out))
copy-canonical_item_end bytes levels pos end all small ends = at (
    WhenSome-some (Found (IsItem levels) bytes pos) (canonical_item_end bytes levels pos) end ends
      (canonical_item_end-Sound bytes levels all pos))
  where
    at :
        Found (IsItem levels) bytes pos end
        → (out : List ℕ) × (copy_with_unassigned_simple_values_undefined bytes (suc levels) pos
            ≡ some (end, out))
    at (item, is_item, stands, to) =
        let (out, is_copy, copied) = IsCopy-IsItem bytes levels small pos item _ is_item stands in
        (out, copied ∙ ap (λ n. some (n, out)) (sym to))
