-- ===== src/Cbor/Copy.antt =====
-- What `copy_with_unassigned_simple_values_undefined` (cbor.rs) makes of a canonical item.
use software_authenticator.Base.{
  ℕ, zero, suc, ◌+◌, ◌*◌, ◌≤◌, ◌≡◌, refl, ap, sym, ◌∙◌, inl, inr, arith, false, none, some, List,
  [], ◌∷◌, ◌++◌, ltb, length, length-append, length-drop, drop, All, concat, append_assoc, u64_max,
}
use software_authenticator.Cbor.Grammar.{IsArray, IsMap, IsItem}
use software_authenticator.Cbor.Heads.{head-Reads}
use software_authenticator.Cbor.Accepts.{after_item}
use software_authenticator.Cbor.Request.{
  Copied, copy_times, copy_with_unassigned_simple_values_undefined,
}
use software_authenticator.Cbor.WellFormed.{
  flattened, length-flattened, concat-flattened, All-flattened, item-nonempty, count_le,
}
use software_authenticator.Cbor.Replaced.{Pairwise, IsDeepCopy, IsCopy}
use software_authenticator.Cbor.Flat.{Copies, copies_at, slice-head, IsFlat-Copies}

copy_times-Copies :
    (P : List ℕ → Type 0) (R : List ℕ → List ℕ → Type 0) (bytes : List ℕ) (step : ℕ → Copied)
    → Copies P R bytes step
    → (items : List (List ℕ)) (pos : ℕ) (post : List ℕ) → All P items
    → drop pos bytes ≡ concat items ++ post
    → (outs : List (List ℕ)) × Pairwise R items outs
      × (copy_times (length items) step pos ≡ some (pos + length (concat items), concat outs))
copy_times-Copies P R bytes step copies [] pos post all at =
    ([], tt, ap (λ n. some (n, [])) (omega arith))
copy_times-Copies P R bytes step copies (item ∷ more) pos post (here, all) at =
    let (out, is_copy, copied) = copies pos item (concat more ++ post) here at' in
    let (outs, are_copies, rest) =
      copy_times-Copies P R bytes step copies more (pos + length item) post all
        (after_item bytes pos item (concat more ++ post) at') in
    (
      out ∷ outs,
      (is_copy, are_copies),
      rw (copied, rest)
          (ap (λ n. some (n, out ++ concat outs))
            (omega (arith, length-append item (concat more)))),
    )
  where
    at' : drop pos bytes ≡ item ++ (concat more ++ post)
    at' = at ∙ append_assoc item (concat more) post

module _ (bytes : List ℕ) (small : length bytes ≤ u64_max) (step : ℕ → Copied) where
  array-Copies :
      (P : List ℕ → Type 0) (R : List ℕ → List ℕ → Type 0)
      → Copies P R bytes step
      → (pos : ℕ) (item post : List ℕ) → IsArray P item
      → drop pos bytes ≡ item ++ post
      → (out : List ℕ) × ((n : ℕ) × IsDeepCopy R 4 n n item out)
        × (copies_at bytes small step pos ≡ some (pos + length item, out))
  array-Copies P R copies pos item post (head, items, is_head, all, same) at =
      let (outs, are_copies, copied) =
        copy_times-Copies P R bytes step copies items (pos + length head) post all
          (after_item bytes pos head (concat items ++ post) at') in
      (
        head ++ concat outs,
        (length items, (head, items, outs, is_head, refl, are_copies, same, refl)),
        rw
            (
              (head-Reads bytes pos 4 (length items) head (concat items ++ post) (omega arith)
                  is_head at').3,
              slice-head bytes pos head (concat items ++ post) at',
              copied,
            )
            (ap (λ m. some (m, head ++ concat outs))
              (omega (arith, ap length same, length-append head (concat items)))),
      )
    where
      at' : drop pos bytes ≡ head ++ (concat items ++ post)
      at' = at ∙ ap (λ i. i ++ post) same ∙ append_assoc head (concat items) post

  map-Copies :
      (P : List ℕ → Type 0) (R : List ℕ → List ℕ → Type 0)
      → ((item : List ℕ) → P item → 1 ≤ length item)
      → Copies P R bytes step
      → (pos : ℕ) (item post : List ℕ) → IsMap P item
      → drop pos bytes ≡ item ++ post
      → (out : List ℕ) × ((n : ℕ) × IsDeepCopy R 5 n (n * 2) item out)
        × (copies_at bytes small step pos ≡ some (pos + length item, out))
  map-Copies P R nonempty copies pos item post (head, pairs, is_head, rising, same) at =
      let (outs, are_copies, copied) =
        copy_times-Copies P R bytes step copies (flattened pairs) (pos + length head) post
          (All-flattened P none pairs rising)
          (after_item bytes pos head (concat (flattened pairs) ++ post) at') in
      (
        head ++ concat outs,
        (
          length pairs,
          (head, flattened pairs, outs, is_head, length-flattened pairs, are_copies, same', refl),
        ),
        rw
            (
              (head-Reads bytes pos 5 (length pairs) head (concat (flattened pairs) ++ post)
                  (omega arith) is_head at').3,
              fits,
              slice-head bytes pos head (concat (flattened pairs) ++ post) at',
              sym (length-flattened pairs),
              copied,
            )
            (ap (λ m. some (m, head ++ concat outs))
              (omega (arith, ap length same', length-append head (concat (flattened pairs))))),
      )
    where
      same' : item ≡ head ++ concat (flattened pairs)
      same' = same ∙ ap (λ r. head ++ r) (sym (concat-flattened pairs))

      at' : drop pos bytes ≡ head ++ (concat (flattened pairs) ++ post)
      at' = at ∙ ap (λ i. i ++ post) same' ∙ append_assoc head (concat (flattened pairs)) post

      fits : ltb u64_max (length pairs * 2) ≡ false
      fits = ground (
        arith,
        length-flattened pairs,
        small,
        count_le P nonempty (flattened pairs) (All-flattened P none pairs rising),
        ap length at',
        length-append head (concat (flattened pairs) ++ post),
        length-append (concat (flattened pairs)) post,
        length-drop pos bytes,
      )

-- With one level of fuel more than the item has levels, the copy is made, and ends where the item does.
pub IsCopy-IsItem :
    (bytes : List ℕ) (levels : ℕ)
    → length bytes ≤ u64_max
    → Copies
        (IsItem levels)
        (IsCopy levels)
        bytes
        (copy_with_unassigned_simple_values_undefined bytes (suc levels))
unfolding copy_with_unassigned_simple_values_undefined
IsCopy-IsItem bytes zero small pos item post flat at =
    IsFlat-Copies bytes small (copy_with_unassigned_simple_values_undefined bytes zero) pos item
      post flat at
IsCopy-IsItem bytes (suc levels) small pos item post (inl flat) at =
    let (out, is_copy, copied) =
      IsFlat-Copies bytes small (copy_with_unassigned_simple_values_undefined bytes (suc levels))
        pos item post flat at in
    (out, inl is_copy, copied)
IsCopy-IsItem bytes (suc levels) small pos item post (inr (inl is_array)) at =
    let (out, (n, is_copy), copied) =
      array-Copies bytes small (copy_with_unassigned_simple_values_undefined bytes (suc levels))
        (IsItem levels) (IsCopy levels) (IsCopy-IsItem bytes levels small) pos item post is_array
        at in
    (out, inr (n, inl is_copy), copied)
IsCopy-IsItem bytes (suc levels) small pos item post (inr (inr is_map)) at =
    let (out, (n, is_copy), copied) =
      map-Copies bytes small (copy_with_unassigned_simple_values_undefined bytes (suc levels))
        (IsItem levels) (IsCopy levels) (item-nonempty levels) (IsCopy-IsItem bytes levels small)
        pos item post is_map at in
    (out, inr (n, inr is_copy), copied)
