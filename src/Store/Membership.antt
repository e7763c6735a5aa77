-- ===== src/Store/Membership.antt =====
-- The encoding of the membership of a credential set and its decoding: store/manifest.rs.
use software_authenticator.Base.{
  ℕ, ◌+◌, ◌*◌, ◌^◌, ◌≤◌, ◌≡◌, refl, sym, ap, ◌∙◌, arith, true, false, Option, none, some, List, [],
  ◌∷◌, ◌++◌, ◌==◌, ltb, leb, length, take, drop, be32, from_be32-be32, bytes_eq, length-append,
  append_assoc, append-nil, take-length-append, drop-length-append, ==_iff,
}
use software_authenticator.Store.Hex.{
  and_left, and_right, hex, all_hex, is_credential_file_name, pack, hex-pack, length-pack,
}
use software_authenticator.Store.Manifest.{
  legacy, managed, Location, Manifest, magic, max_plaintext, location_byte, encode_entries, encode,
  location_of, rises, decode_entries, count_of, decode,
}
use software_authenticator.Store.Order.{insert-AllBefore, IsBehind, IsBehind-next}

-- A manifest that a `BTreeMap` can be: names of credential files, in strictly rising order.
abbrev pub IsManifestFrom : Option (List ℕ) → Manifest → Type 0
IsManifestFrom previous [] = Unit
IsManifestFrom previous (entry ∷ more) =
    ((is_credential_file_name entry.0 ≡ true) × (rises previous entry.0 ≡ true))
    × IsManifestFrom (some entry.0) more

abbrev pub entry_bytes : List ℕ × Location → List ℕ
entry_bytes entry = location_byte entry.1 ∷ pack entry.0

abbrev pub body : Manifest → List ℕ
body [] = []
body (entry ∷ more) = entry_bytes entry ++ body more

name-length : (name : List ℕ) → is_credential_file_name name ≡ true → length name ≡ 2 * 32
name-length name valid =
    (==_iff (length name) (2 * 32)).0 (and_left (length name == 2 * 32) (all_hex name) valid)

length-entry : (name : List ℕ) → is_credential_file_name name ≡ true → length (pack name) ≡ 32
length-entry name valid = length-pack 32 name (name-length name valid)

length-body :
    (previous : Option (List ℕ)) (manifest : Manifest)
    → IsManifestFrom previous manifest
    → length (body manifest) ≡ length manifest * 33
length-body previous [] valid = refl
length-body previous ((name, location) ∷ more) ((named, after), valid) = omega (
  arith,
  length-append (pack name) (body more),
  length-entry name named,
  length-body (some name) more valid,
)

pub encode_entries-body :
    (previous : Option (List ℕ)) (manifest : Manifest)
    → IsManifestFrom previous manifest
    → encode_entries manifest ≡ some (body manifest)
encode_entries-body previous [] valid = refl
encode_entries-body previous ((name, location) ∷ more) ((named, after), valid) =
    rw (named, encode_entries-body (some name) more valid)

location_of-location_byte :
    (location : Location) → location_of (location_byte location) ≡ some location
location_of-location_byte legacy = refl
location_of-location_byte managed = refl

decode_entries-body :
    (previous : Option (List ℕ)) (manifest : Manifest) (so_far : Manifest)
    → IsManifestFrom previous manifest
    → IsBehind so_far previous
    → decode_entries (length manifest) (body manifest) previous so_far ≡ some (so_far ++ manifest)
decode_entries-body previous [] so_far valid behind = ap some (sym (append-nil so_far))
decode_entries-body previous ((name, location) ∷ more) so_far ((named, after), valid) behind =
    rw (decode_entries, location_of-location_byte location, name_back, rest_back, after)
      (ap (decode_entries (length more) (body more) (some name))
          (insert-AllBefore name location so_far (behind name after))
        ∙ decode_entries-body (some name) more (so_far ++ ((name, location) ∷ [])) valid
            (IsBehind-next so_far previous name location behind after)
        ∙ ap some (append_assoc so_far ((name, location) ∷ []) more))
  where
    cut : take 32 (pack name ++ body more) ≡ pack name
    cut = take-length-append 32 (pack name) (body more) (sym (length-entry name named))

    name_back : hex (take 32 (pack name ++ body more)) ≡ name
    name_back =
        ap hex cut
        ∙ hex-pack 32 name (name-length name named)
            (and_right (length name == 2 * 32) (all_hex name) named)

    rest_back : drop 32 (pack name ++ body more) ≡ body more
    rest_back = drop-length-append 32 (pack name) (body more) (sym (length-entry name named))

-- A set of credential files that fits an envelope is encoded, and decoding gives the set back.
pub decode-encode :
    (manifest : Manifest)
    → IsManifestFrom none manifest
    → length manifest * 33 + 8 ≤ max_plaintext
    → (bytes : List ℕ) × (encode manifest ≡ some bytes) × (decode bytes ≡ some manifest)
unfolding encode decode bytes_eq
decode-encode manifest valid fits =
    ((magic ++ be32 (length manifest)) ++ body manifest, encoded, decoded)
  where
    short : ltb max_plaintext (length manifest * 33 + 8) ≡ false
    short = ground arith

    few : leb (2 ^ 32) (length manifest) ≡ false
    few = ground arith

    encoded : encode manifest ≡ some ((magic ++ be32 (length manifest)) ++ body manifest)
    encoded = rw (short, few, encode_entries-body none manifest valid)

    counted : count_of ((magic ++ be32 (length manifest)) ++ body manifest) ≡ length manifest
    counted = from_be32-be32 (length manifest) (omega arith)

    whole :
        (length manifest * 33 + 8 == length ((magic ++ be32 (length manifest)) ++ body manifest))
        ≡ true
    whole = ground (arith, length-body none manifest valid)

    long : ltb (length ((magic ++ be32 (length manifest)) ++ body manifest)) 8 ≡ false
    long = ground arith

    decoded : decode ((magic ++ be32 (length manifest)) ++ body manifest) ≡ some manifest
    decoded =
        rw (long, counted, whole) (decode_entries-body none manifest [] valid (λ name after. tt))
