-- ===== src/Cbor/Accepted.antt =====
-- What `canonical_item_end` (cbor.rs) accepts is a canonical item.
use software_authenticator.Base.{
  WhenSome-map, if-elim, WhenSome, ℕ, zero, suc, ◌+◌, ◌/◌, ◌%◌, ◌≤◌, ◌<◌, ◌≡◌, ◌⊎◌, refl, ap, sym,
  ◌∙◌, subst, inl, inr, arith, false, Option, none, some, List, ◌++◌, ◌==◌, ltb, leb, ◌||◌, ◌&&◌,
  length, length-append, length-drop, length-take, take, drop, drop-drop, take-append-drop,
  append_assoc, leb→le, concat, u64_max, All, Bool-cases, not_leb→lt,
}
use software_authenticator.Cbor.Header.{get, Header, header, times, string_end}
use software_authenticator.Cbor.Canonical.{
  entries_end, is_shortest, canonical_children, canonical_of, canonical_body, canonical_at,
  canonical_item_end,
}
use software_authenticator.Cbor.Grammar.{
  IsByte, IsHead, IsString, IsSimple, IsFloat, IsFlat, IsArray, entries, IsMap, IsItem,
}
use software_authenticator.Cbor.Found.{Found, Stands, header-Stands, get-IsByte}
use software_authenticator.Cbor.Kinds.{float_end-Found, HeadFound, head-Found, IsSimple-Found}
use software_authenticator.Cbor.Loops.{
  Sound, FoundAll, FoundEntries, times-Sound, entries_end-Sound,
}

as_kind :
    (P Q : List ℕ → Type 0) (bytes : List ℕ) (pos end : ℕ)
    → ((item : List ℕ) → P item → Q item)
    → Found P bytes pos end
    → Found Q bytes pos end
as_kind P Q bytes pos end f (item, is_p, at, to) = (item, f item is_p, at, to)

string_end-Sound :
    (bytes : List ℕ) (pos : ℕ) (h : Header)
    → 2 ≤ h.major
    → h.major ≤ 3
    → HeadFound bytes pos h
    → WhenSome (Found IsString bytes pos) (string_end bytes h)
string_end-Sound bytes pos h low high (head, is_head, at, to) =
    if-elim (WhenSome (Found IsString bytes pos))
      (ltb u64_max (h.header_end + h.argument) || ltb (length bytes) (h.header_end + h.argument)) _
      _ (λ long. tt)
      (λ fits. (
        head ++ s,
        (
          h.major,
          head,
          s,
          low,
          high,
          subst (λ n. IsHead h.major n head) (sym (sized fits)) is_head,
          refl,
        ),
        at
            ∙ ap (λ r. head ++ r)
                (sym (take-append-drop h.argument behind)
                  ∙ ap (λ r. s ++ r) (sym (drop-drop h.header_end h.argument bytes)))
            ∙ sym (append_assoc head s (drop (h.header_end + h.argument) bytes)),
        omega (arith, to, length-append head s, sized fits),
      ))
  where
    behind : List ℕ
    behind = drop h.header_end bytes

    s : List ℕ
    s = take h.argument behind

    sized :
        (ltb u64_max (h.header_end + h.argument) || ltb (length bytes) (h.header_end + h.argument))
          ≡ false
        → length s ≡ h.argument
    sized fits = ground (arith, length-take h.argument behind, length-drop h.header_end bytes)

-- Arrays and maps: the items behind the header are of the kind that the step finds.
IsArray-Sound :
    (P : List ℕ → Type 0) (bytes : List ℕ) (step : ℕ → Option ℕ) (pos : ℕ) (h : Header)
    → Sound P bytes step
    → h.major ≡ 4
    → HeadFound bytes pos h
    → WhenSome (Found (IsArray P) bytes pos) (times h.argument step h.header_end)
IsArray-Sound P bytes step pos h sound four (head, is_head, at, to) =
    WhenSome-map (FoundAll P bytes h.argument h.header_end) (Found (IsArray P) bytes pos) _
      (times-Sound P bytes step sound h.argument h.header_end)
      (λ end (items, counted, all, rest, end'). (
        head ++ concat items,
        (
          head,
          items,
          subst (λ m. IsHead m (length items) head) four
              (subst (λ n. IsHead h.major n head) (sym counted) is_head),
          all,
          refl,
        ),
        at ∙ ap (λ r. head ++ r) rest ∙ sym (append_assoc head (concat items) (drop end bytes)),
        omega (arith, to, end', length-append head (concat items)),
      ))

IsMap-Sound :
    (P : List ℕ → Type 0) (bytes : List ℕ) (step : ℕ → Option ℕ) (pos : ℕ) (h : Header)
    → Sound P bytes step
    → h.major ≡ 5
    → HeadFound bytes pos h
    → WhenSome (Found (IsMap P) bytes pos) (entries_end bytes step h.argument none h.header_end)
IsMap-Sound P bytes step pos h sound five (head, is_head, at, to) =
    WhenSome-map (FoundEntries P bytes h.argument none h.header_end) (Found (IsMap P) bytes pos) _
      (entries_end-Sound P bytes step sound h.argument none h.header_end)
      (λ end (pairs, counted, rising, rest, end'). (
        head ++ entries pairs,
        (
          head,
          pairs,
          subst (λ m. IsHead m (length pairs) head) five
              (subst (λ n. IsHead h.major n head) (sym counted) is_head),
          rising,
          refl,
        ),
        at ∙ ap (λ r. head ++ r) rest ∙ sym (append_assoc head (entries pairs) (drop end bytes)),
        omega (arith, to, end', length-append head (entries pairs)),
      ))

-- The two kinds of walk: at the deepest level, and with a step for what is one level deeper.
module _ (P : List ℕ → Type 0) (bytes : List ℕ) (all : All IsByte bytes)
    (children : Option (ℕ → Option ℕ)) (flat : (item : List ℕ) → IsFlat item → P item)
    (nested : (pos : ℕ) (h : Header)
      → (h.major ≡ 4) ⊎ (h.major ≡ 5)
      → HeadFound bytes pos h
      → WhenSome (Found P bytes pos) (canonical_children bytes children h)) where
  canonical_of-Sound :
      (pos : ℕ) (h : Header)
      → h.major ≤ 5
      → HeadFound bytes pos h
      → WhenSome (Found P bytes pos) (canonical_of bytes children h)
  canonical_of-Sound pos h low found =
      if-elim (WhenSome (Found P bytes pos)) (h.major == 0 || h.major == 1 || h.major == 7) _ _
        (λ number.
          as_kind (IsHead h.major h.argument) P bytes pos h.header_end
            (λ item is_head. flat item (inl (inl (h.major, h.argument, ground arith, is_head))))
            found)
        (λ other.
          if-elim (WhenSome (Found P bytes pos)) (h.major == 2 || h.major == 3) _ _
            (λ string.
              WhenSome-map (Found IsString bytes pos) (Found P bytes pos) (string_end bytes h)
                (string_end-Sound bytes pos h (ground arith) (ground arith) found)
                (λ end.
                  as_kind IsString P bytes pos end
                    (λ item is_string. flat item (inl (inr is_string)))))
            (λ no_string.
              if-elim (WhenSome (Found P bytes pos)) (h.major == 4 || h.major == 5) _ _
                (λ deep. nested pos h (ground arith) found) (λ no_more. tt)))

  canonical_of-simple :
      (pos : ℕ) (h : Header)
      → 5 < h.major
      → (h.major ≡ 7 → Found IsSimple bytes pos h.header_end)
      → WhenSome (Found P bytes pos) (canonical_of bytes children h)
  canonical_of-simple pos h high found =
      if-elim (WhenSome (Found P bytes pos)) (h.major == 0 || h.major == 1 || h.major == 7) _ _
        (λ simple.
          as_kind IsSimple P bytes pos h.header_end
            (λ item is_simple. flat item (inr (inl is_simple))) (found (ground arith)))
        (λ other.
          if-elim (WhenSome (Found P bytes pos)) (h.major == 2 || h.major == 3) _ _
            (λ string. absurd (ground arith))
            (λ no_string.
              if-elim (WhenSome (Found P bytes pos)) (h.major == 4 || h.major == 5) _ _
                (λ deep. absurd (ground arith)) (λ no_more. tt)))

  canonical_body-Sound :
      (pos initial : ℕ) (o : Option Header)
      → get bytes pos ≡ some initial
      → (initial / 32 == 7 && leb 25 (initial % 32) && leb (initial % 32) 27) ≡ false
      → WhenSome (Stands bytes pos initial) o
      → WhenSome (Found P bytes pos) (canonical_body bytes children (initial % 32) o)
  canonical_body-Sound pos initial none at no_float stands = tt
  canonical_body-Sound pos initial (some h) at no_float stands =
      if-elim (WhenSome (Found P bytes pos)) (is_shortest (initial % 32) h) _ _
        (λ shortest. elim (Bool-cases (leb h.major 5)) [
          | inl low ↦
              canonical_of-Sound pos h (leb→le h.major 5 low)
                (head-Found bytes pos initial h at (leb→le h.major 5 low) shortest stands)
          | inr high ↦ canonical_of-simple pos h (not_leb→lt h.major 5 high) (λ seven.
              IsSimple-Found bytes pos initial h at seven (ground (arith, stands.0)) shortest
                stands)
        ])
        (λ longer. tt)

  canonical_at-Sound :
      (pos : ℕ) (o : Option ℕ)
      → get bytes pos ≡ o
      → WhenSome (Found P bytes pos) (canonical_at bytes children pos o)
  canonical_at-Sound pos none at = tt
  canonical_at-Sound pos (some initial) at =
      if-elim (WhenSome (Found P bytes pos))
        (initial / 32 == 7 && leb 25 (initial % 32) && leb (initial % 32) 27) _ _
        (λ is_float.
          WhenSome-map (Found IsFloat bytes pos) (Found P bytes pos) _
            (float_end-Found bytes pos initial at (get-IsByte bytes pos initial all at) is_float)
            (λ end. as_kind IsFloat P bytes pos end (λ item float. flat item (inr (inr float)))))
        (λ no_float.
          canonical_body-Sound pos initial (header bytes pos) at no_float
            (header-Stands bytes pos initial all at))

deep-Sound :
    (levels : ℕ) (bytes : List ℕ) (step : ℕ → Option ℕ)
    → Sound (IsItem levels) bytes step
    → (pos : ℕ) (h : Header) → (h.major ≡ 4) ⊎ (h.major ≡ 5)
    → HeadFound bytes pos h
    → WhenSome (Found (IsItem (suc levels)) bytes pos) (canonical_children bytes (some step) h)
deep-Sound levels bytes step sound pos h deep found =
    if-elim (WhenSome (Found (IsItem (suc levels)) bytes pos)) (h.major == 4) _ _
      (λ four.
        WhenSome-map (Found (IsArray (IsItem levels)) bytes pos)
          (Found (IsItem (suc levels)) bytes pos) _
          (IsArray-Sound (IsItem levels) bytes step pos h sound (ground arith) found)
          (λ end.
            as_kind (IsArray (IsItem levels)) (IsItem (suc levels)) bytes pos end
              (λ item i. inr (inl i))))
      (λ no_array.
        WhenSome-map (Found (IsMap (IsItem levels)) bytes pos)
          (Found (IsItem (suc levels)) bytes pos) _
          (IsMap-Sound (IsItem levels) bytes step pos h sound (ground arith) found)
          (λ end.
            as_kind (IsMap (IsItem levels)) (IsItem (suc levels)) bytes pos end
              (λ item i. inr (inr i))))

-- Where the walk ends is the end of a canonical item.
pub canonical_item_end-Sound :
    (bytes : List ℕ) (levels : ℕ)
    → All IsByte bytes
    → Sound (IsItem levels) bytes (canonical_item_end bytes levels)
unfolding canonical_item_end
canonical_item_end-Sound bytes zero all pos =
    canonical_at-Sound (IsItem zero) bytes all none (λ item flat. flat) (λ pos h deep found. tt) pos
      (get bytes pos) refl
canonical_item_end-Sound bytes (suc levels) all pos =
    canonical_at-Sound (IsItem (suc levels)) bytes all (some (canonical_item_end bytes levels))
      (λ item flat. inl flat)
      (deep-Sound levels bytes (canonical_item_end bytes levels)
        (canonical_item_end-Sound bytes levels all))
      pos (get bytes pos) refl
