-- ===== src/Cbor/Exact.antt =====
-- `is_canonical` (cbor.rs) and the grammar of canonical items agree.
use software_authenticator.Base.{
  WhenSome-some, ℕ, ◌≤◌, ◌≡◌, ◌↔◌, ap, sym, ◌∙◌, subst, arith, some, List, [], ◌++◌, length,
  drop-all, append-nil, u64_max, All,
}
use software_authenticator.Cbor.Canonical.{canonical_item_end}
use software_authenticator.Cbor.Grammar.{IsByte, IsItem}
use software_authenticator.Cbor.Found.{Found}
use software_authenticator.Cbor.Accepts.{canonical_item_end-IsItem}
use software_authenticator.Cbor.Accepted.{canonical_item_end-Sound}

-- The walk from the start ends at the end of the bytes exactly where the bytes are one canonical item
-- of at most `levels` levels: for any bytes, less than 2 ^ 64 of them.
pub canonical_item_end_iff :
    (bytes : List ℕ) (levels : ℕ)
    → All IsByte bytes
    → length bytes ≤ u64_max
    → (canonical_item_end bytes levels 0 ≡ some (length bytes)) ↔ IsItem levels bytes
canonical_item_end_iff bytes levels all small = (accepted, accepts)
  where
    accepted : canonical_item_end bytes levels 0 ≡ some (length bytes) → IsItem levels bytes
    accepted ends = whole (
        WhenSome-some (Found (IsItem levels) bytes 0) (canonical_item_end bytes levels 0)
          (length bytes) ends (canonical_item_end-Sound bytes levels all 0))
      where
        whole : Found (IsItem levels) bytes 0 (length bytes) → IsItem levels bytes
        whole (item, is_item, at, to) =
            subst (IsItem levels)
              (sym (
                at
                ∙ ap (λ r. item ++ r) (drop-all (length bytes) bytes (omega arith))
                ∙ append-nil item))
              is_item

    accepts : IsItem levels bytes → canonical_item_end bytes levels 0 ≡ some (length bytes)
    accepts is_item =
        canonical_item_end-IsItem bytes levels 0 bytes [] small is_item (sym (append-nil bytes))
        ∙ ap some (omega arith)
