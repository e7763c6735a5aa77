-- ===== src/Store/Decoded.antt =====
-- What `decode` of store/manifest.rs accepts is what `encode` writes.
use software_authenticator.Base.{
  if-elim, WhenSome, WhenSome-some, WhenSome-bind, WhenSome-map, ℕ, zero, suc, ◌+◌, ◌*◌, ◌^◌, ◌≤◌,
  ◌<◌, ◌≡◌, refl, sym, ap, ◌∙◌, subst, arith, not, true, false, Option, none, some, List, [], ◌∷◌,
  ◌++◌, ◌==◌, ltb, leb, length, length-take, length-drop, take, drop, take-append-drop, be32,
  from_be32, bytes_eq, eq_of_bytes_eq, append_assoc, append-nil, ==_iff, All, All-take, All-drop,
}
use software_authenticator.Store.Hex.{
  hex, is_credential_file_name, pack, pack-hex, hex-all_hex, length-hex,
}
use software_authenticator.Store.Manifest.{
  Location, Manifest, magic, max_plaintext, location_byte, encode, location_of, rises,
  decode_entries, count_of, decode,
}
use software_authenticator.Store.Order.{insert-AllBefore, IsBehind, IsBehind-next}
use software_authenticator.Store.Membership.{encode_entries-body, IsManifestFrom, body}

abbrev AllBytes : List ℕ → Type 0
AllBytes bytes = All (λ b. b < 256) bytes

-- The entries that follow, with the bytes they come from.
abbrev DecodesTo : ℕ → List ℕ → Option (List ℕ) → Manifest → Manifest → Type 0
DecodesTo count bytes previous so_far manifest =
    (more : Manifest) × (manifest ≡ so_far ++ more)
    × IsManifestFrom previous more
    × (body more ≡ bytes)
    × (length more ≡ count)

location_of-byte :
    (byte : ℕ) → WhenSome (λ location. location_byte location ≡ byte) (location_of byte)
location_of-byte byte =
    if-elim (WhenSome (λ location. location_byte location ≡ byte)) (byte == 0) _ _
      (λ is_legacy. sym ((==_iff byte 0).0 is_legacy))
      (λ other.
        if-elim (WhenSome (λ location. location_byte location ≡ byte)) (byte == 1) _ _
          (λ is_managed. sym ((==_iff byte 1).0 is_managed)) (λ neither. tt))

name-named :
    (rest : List ℕ)
    → AllBytes rest
    → 32 ≤ length rest
    → is_credential_file_name (hex (take 32 rest)) ≡ true
name-named rest all enough =
    rw (sized, hex-all_hex (take 32 rest) (All-take (λ b. b < 256) 32 rest all))
  where
    sized : (length (hex (take 32 rest)) == 2 * 32) ≡ true
    sized = ground (arith, length-hex (take 32 rest), length-take 32 rest)

one_entry :
    (count b : ℕ) (rest : List ℕ) (previous : Option (List ℕ)) (so_far manifest : Manifest)
    (location : Location)
    → AllBytes rest
    → 32 ≤ length rest
    → location_byte location ≡ b
    → rises previous (hex (take 32 rest)) ≡ true
    → DecodesTo count
        (drop 32 rest)
        (some (hex (take 32 rest)))
        (so_far ++ ((hex (take 32 rest), location) ∷ []))
        manifest
    → DecodesTo (suc count) (b ∷ rest) previous so_far manifest
one_entry count b rest previous so_far manifest location all enough byte after
      (more, same, valid, at, counted) =
    (
      (hex (take 32 rest), location) ∷ more,
      same ∙ append_assoc so_far ((hex (take 32 rest), location) ∷ []) more,
      ((name-named rest all enough, after), valid),
      ap (λ b. b ∷ (pack (hex (take 32 rest)) ++ body more)) byte
          ∙ ap (λ n. b ∷ (n ++ body more))
              (pack-hex (take 32 rest) (All-take (λ b. b < 256) 32 rest all))
          ∙ ap (λ r. b ∷ (take 32 rest ++ r)) at
          ∙ ap (◌∷◌ b) (take-append-drop 32 rest),
      omega (arith, counted),
    )

decode_entries-DecodesTo :
    (count : ℕ) (bytes : List ℕ) (previous : Option (List ℕ)) (so_far : Manifest)
    → AllBytes bytes
    → length bytes ≡ count * 33
    → IsBehind so_far previous
    → WhenSome (DecodesTo count bytes previous so_far) (decode_entries count bytes previous so_far)
decode_entries-DecodesTo zero [] previous so_far all sized behind =
    ([], sym (append-nil so_far), tt, refl, refl)
decode_entries-DecodesTo zero (b ∷ rest) previous so_far all sized behind = absurd (omega arith)
decode_entries-DecodesTo (suc count) [] previous so_far all sized behind = absurd (omega arith)
decode_entries-DecodesTo (suc count) (b ∷ rest) previous so_far (byte, all) sized behind =
    WhenSome-bind (λ location. location_byte location ≡ b)
      (DecodesTo (suc count) (b ∷ rest) previous so_far) (location_of b) _ (location_of-byte b)
      (λ location at.
        if-elim (WhenSome (DecodesTo (suc count) (b ∷ rest) previous so_far)) (rises previous name)
          _ _
          (λ after.
            WhenSome-map
              (DecodesTo count (drop 32 rest) (some name) (so_far ++ ((name, location) ∷ [])))
              (DecodesTo (suc count) (b ∷ rest) previous so_far) _
              (subst
                (λ so_far'.
                  WhenSome
                    (DecodesTo count (drop 32 rest) (some name) (so_far ++ ((name, location) ∷ [])))
                    (decode_entries count (drop 32 rest) (some name) so_far'))
                (sym (insert-AllBefore name location so_far (behind name after)))
                (decode_entries-DecodesTo count (drop 32 rest) (some name)
                  (so_far ++ ((name, location) ∷ [])) (All-drop (λ b. b < 256) 32 rest all)
                  (omega (arith, length-drop 32 rest))
                  (IsBehind-next so_far previous name location behind after)))
              (λ manifest.
                one_entry count b rest previous so_far manifest location all (omega arith) at
                  after))
          (λ not_after. tt))
  where
    name : List ℕ
    name = hex (take 32 rest)

four :
    {a b c d e f g h : ℕ}
    → a ≡ e
    → b ≡ f
    → c ≡ g
    → d ≡ h
    → Path (List ℕ) (a ∷ b ∷ c ∷ d ∷ []) (e ∷ f ∷ g ∷ h ∷ [])
four ae bf cg dh = cc

-- The first eight bytes are the magic number and the count.
header_bytes :
    (bytes : List ℕ)
    → AllBytes bytes
    → 8 ≤ length bytes
    → take 4 bytes ≡ magic
    → bytes ≡ (magic ++ be32 (count_of bytes)) ++ drop 8 bytes
header_bytes [] all enough start = absurd (omega arith)
header_bytes (a ∷ []) all enough start = absurd (omega arith)
header_bytes (a ∷ b ∷ []) all enough start = absurd (omega arith)
header_bytes (a ∷ b ∷ c ∷ []) all enough start = absurd (omega arith)
header_bytes (a ∷ b ∷ c ∷ d ∷ []) all enough start = absurd (omega arith)
header_bytes (a ∷ b ∷ c ∷ d ∷ e ∷ []) all enough start = absurd (omega arith)
header_bytes (a ∷ b ∷ c ∷ d ∷ e ∷ f ∷ []) all enough start = absurd (omega arith)
header_bytes (a ∷ b ∷ c ∷ d ∷ e ∷ f ∷ g ∷ []) all enough start = absurd (omega arith)
header_bytes (a ∷ b ∷ c ∷ d ∷ e ∷ f ∷ g ∷ h ∷ bytes)
      (ha, (hb, (hc, (hd, (he, (hf, (hg, (hh, all)))))))) enough start =
    ap (λ m. m ++ (e ∷ f ∷ g ∷ h ∷ bytes)) start
    ∙ ap (λ n. magic ++ (n ++ bytes)) (sym (counted e f g h he hf hg hh))
  where
    counted :
        (e f g h : ℕ)
        → e < 256
        → f < 256
        → g < 256
        → h < 256
        → be32 (from_be32 e f g h) ≡ e ∷ f ∷ g ∷ h ∷ []
    counted e f g h he hf hg hh = four (omega arith) (omega arith) (omega arith) (omega arith)

encode-header :
    (bytes : List ℕ) (manifest : Manifest)
    → length bytes ≤ max_plaintext
    → bytes ≡ (magic ++ be32 (count_of bytes)) ++ drop 8 bytes
    → count_of bytes * 33 + 8 ≡ length bytes
    → DecodesTo (count_of bytes) (drop 8 bytes) none [] manifest
    → IsManifestFrom none manifest × (encode manifest ≡ some bytes)
unfolding encode
encode-header bytes manifest small start sized (more, same, valid, at, counted) = (
  subst (IsManifestFrom none) (sym same) valid,
  ap encode same
      ∙ rw (short, few, encode_entries-body none more valid)
          (ap some (
            ap (λ n. (magic ++ be32 n) ++ body more) counted
            ∙ ap (λ r. (magic ++ be32 (count_of bytes)) ++ r) at
            ∙ sym start)),
)
  where
    short : ltb max_plaintext (length more * 33 + 8) ≡ false
    short = ground (arith, counted)

    few : leb (2 ^ 32) (length more) ≡ false
    few = ground (arith, counted)

-- Whatever bytes decode to a set of credential files, and fit an envelope, are the encoding of that set:
-- names of 64 lower-case hexadecimal digits in strictly rising order.
pub encode-decode :
    (bytes : List ℕ) (manifest : Manifest)
    → All (λ b. b < 256) bytes
    → length bytes ≤ max_plaintext
    → decode bytes ≡ some manifest
    → IsManifestFrom none manifest × (encode manifest ≡ some bytes)
unfolding decode
encode-decode bytes manifest all small decodes =
    WhenSome-some Target (decode bytes) manifest decodes (
      if-elim (WhenSome Target) (ltb (length bytes) 8) _ _ (λ truncated. tt)
        (λ long.
          if-elim (WhenSome Target) (not (bytes_eq (take 4 bytes) magic)) _ _ (λ other. tt)
            (λ right.
              if-elim (WhenSome Target) (not (count_of bytes * 33 + 8 == length bytes)) _ _
                (λ wrong. tt)
                (λ whole.
                  WhenSome-map (DecodesTo (count_of bytes) (drop 8 bytes) none []) Target _
                    (decode_entries-DecodesTo (count_of bytes) (drop 8 bytes) none []
                      (All-drop (λ b. b < 256) 8 bytes all)
                      (omega (arith, sized whole, length-drop 8 bytes)) (λ name after. tt))
                    (λ manifest.
                      encode-header bytes manifest small
                        (header_bytes bytes all (ground arith)
                          (eq_of_bytes_eq (take 4 bytes) magic (ground arith)))
                        (sized whole))))))
  where
    Target : Manifest → Type 0
    Target manifest = IsManifestFrom none manifest × (encode manifest ≡ some bytes)

    sized :
        not (count_of bytes * 33 + 8 == length bytes) ≡ false
        → count_of bytes * 33 + 8 ≡ length bytes
    sized whole = ground arith
