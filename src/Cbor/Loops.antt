-- ===== src/Cbor/Loops.antt =====
-- What the loops of `canonical_item_end` (cbor.rs) accept over the items of an array and of a map.
use software_authenticator.Base.{
  WhenSome-map, if-elim, WhenSome, WhenSome-bind, ℕ, zero, suc, ◌+◌, ◌-◌, ◌≡◌, refl, ap, sym, ◌∙◌,
  subst, arith, true, Option, some, List, [], ◌∷◌, ◌++◌, not, length, length-append, drop,
  take-length-append, append_assoc, concat, All,
}
use software_authenticator.Cbor.Header.{times}
use software_authenticator.Cbor.Canonical.{is_after, slice, entries_end}
use software_authenticator.Cbor.Keys.{is_after_iff}
use software_authenticator.Cbor.Grammar.{IsRising, entries}
use software_authenticator.Cbor.Found.{Found}

-- Where the step ends is the end of an item of this kind.
abbrev pub Sound : (List ℕ → Type 0) → List ℕ → (ℕ → Option ℕ) → Type 0
Sound P bytes step = (pos : ℕ) → WhenSome (Found P bytes pos) (step pos)

abbrev pub FoundAll : (List ℕ → Type 0) → List ℕ → ℕ → ℕ → ℕ → Type 0
FoundAll P bytes count pos end =
    (items : List (List ℕ)) × (length items ≡ count)
    × All P items
    × (drop pos bytes ≡ concat items ++ drop end bytes)
    × (end ≡ pos + length (concat items))

one_more :
    (P : List ℕ → Type 0) (bytes : List ℕ) (count pos next end : ℕ)
    → Found P bytes pos next
    → FoundAll P bytes count next end
    → FoundAll P bytes (suc count) pos end
one_more P bytes count pos next end (item, here, at, step) (items, counted, all, rest, to) = (
  item ∷ items,
  omega (arith, counted),
  (here, all),
  at ∙ ap (λ r. item ++ r) rest ∙ sym (append_assoc item (concat items) (drop end bytes)),
  omega (arith, step, to, length-append item (concat items)),
)

pub times-Sound :
    (P : List ℕ → Type 0) (bytes : List ℕ) (step : ℕ → Option ℕ)
    → Sound P bytes step
    → (count pos : ℕ) → WhenSome (FoundAll P bytes count pos) (times count step pos)
times-Sound P bytes step sound zero pos = ([], refl, tt, refl, omega arith)
times-Sound P bytes step sound (suc count) pos =
    WhenSome-bind (Found P bytes pos) (FoundAll P bytes (suc count) pos) (step pos)
      (times count step) (sound pos)
      (λ next found.
        WhenSome-map (FoundAll P bytes count next) (FoundAll P bytes (suc count) pos)
          (times count step next) (times-Sound P bytes step sound count next)
          (λ end all. one_more P bytes count pos next end found all))

-- The entries of a map from here on, behind a key.
abbrev pub FoundEntries : (List ℕ → Type 0) → List ℕ → ℕ → Option (List ℕ) → ℕ → ℕ → Type 0
FoundEntries P bytes count previous pos end =
    (pairs : List (List ℕ × List ℕ)) × (length pairs ≡ count)
    × IsRising P previous pairs
    × (drop pos bytes ≡ entries pairs ++ drop end bytes)
    × (end ≡ pos + length (entries pairs))

one_more_entry :
    (P : List ℕ → Type 0) (bytes : List ℕ) (count : ℕ) (previous : Option (List ℕ))
    (pos key_end next end : ℕ)
    → Found P bytes pos key_end
    → is_after previous (slice bytes pos key_end) ≡ true
    → Found P bytes key_end next
    → FoundEntries P bytes count (some (slice bytes pos key_end)) next end
    → FoundEntries P bytes (suc count) previous pos end
one_more_entry P bytes count previous pos key_end next end (key, key_in, at_key, key_to) rises
      (v, v_in, at_v, v_to) (pairs, counted, rising, rest, to) =
    (
      (key, v) ∷ pairs,
      omega (arith, counted),
      (
        (key_in, v_in, (is_after_iff previous key).0 (ap (is_after previous) (sym cut) ∙ rises)),
        subst (λ k. IsRising P (some k) pairs) cut rising,
      ),
      at_key ∙ ap (λ r. key ++ r) (at_v ∙ ap (λ r. v ++ r) rest) ∙ regroup,
      omega (
        arith,
        key_to,
        v_to,
        to,
        length-append key (v ++ entries pairs),
        length-append v (entries pairs),
      ),
    )
  where
    cut : slice bytes pos key_end ≡ key
    cut =
        rw (at_key)
          (take-length-append (key_end - pos) key (drop key_end bytes) (omega (arith, key_to)))

    regroup :
        key ++ (v ++ (entries pairs ++ drop end bytes))
        ≡ (key ++ (v ++ entries pairs)) ++ drop end bytes
    regroup =
        ap (λ r. key ++ r) (sym (append_assoc v (entries pairs) (drop end bytes)))
        ∙ sym (append_assoc key (v ++ entries pairs) (drop end bytes))

pub entries_end-Sound :
    (P : List ℕ → Type 0) (bytes : List ℕ) (step : ℕ → Option ℕ)
    → Sound P bytes step
    → (count : ℕ) (previous : Option (List ℕ)) (pos : ℕ)
    → WhenSome (FoundEntries P bytes count previous pos) (entries_end bytes step count previous pos)
entries_end-Sound P bytes step sound zero previous pos = ([], refl, tt, refl, omega arith)
entries_end-Sound P bytes step sound (suc count) previous pos =
    WhenSome-bind (Found P bytes pos) (FoundEntries P bytes (suc count) previous pos) (step pos) _
      (sound pos)
      (λ key_end key.
        if-elim (WhenSome (FoundEntries P bytes (suc count) previous pos))
          (not (is_after previous (slice bytes pos key_end))) _ _ (λ not_after. tt)
          (λ after.
            WhenSome-bind (Found P bytes key_end) (FoundEntries P bytes (suc count) previous pos)
              (step key_end) _ (sound key_end)
              (λ next v.
                WhenSome-map (FoundEntries P bytes count (some (slice bytes pos key_end)) next)
                  (FoundEntries P bytes (suc count) previous pos) _
                  (entries_end-Sound P bytes step sound count (some (slice bytes pos key_end)) next)
                  (λ end rest.
                    one_more_entry P bytes count previous pos key_end next end key (ground arith) v
                      rest))))
