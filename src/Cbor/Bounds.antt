-- ===== src/Cbor/Bounds.antt =====
-- The positions that `item_end` (cbor.rs) returns lie in the bytes, well formed or not.
use software_authenticator.Base.{
  if-elim, WhenSome, WhenSome-some, WhenSome-bind, WhenSome-map, ℕ, zero, suc, ◌+◌, ◌-◌, ◌*◌, ◌%◌,
  ◌^◌, ◌≤◌, ◌<◌, ◌≡◌, refl, ap, arith, ◌||◌, Option, none, some, List, ◌==◌, ltb, leb, leb→le,
  length, length-drop, u64_max,
}
use software_authenticator.Cbor.Header.{
  get, get_range, Header, long_header, header_of, header, times, string_end, item_body, item_end,
}
use software_authenticator.Cbor.Found.{get-drop}

-- Behind the position, and not behind the last byte.
abbrev pub IsWithin : List ℕ → ℕ → ℕ → Type 0
IsWithin bytes pos end = (pos < end) × (end ≤ length bytes)

long_header-IsWithin :
    (bytes : List ℕ) (pos initial size : ℕ)
    → WhenSome
        (λ h. IsWithin bytes pos h.header_end)
        (long_header initial pos size (get_range bytes (pos + 1) size))
long_header-IsWithin bytes pos initial size =
    if-elim (λ o. WhenSome (λ h. IsWithin bytes pos h.header_end) (long_header initial pos size o))
      (leb (pos + 1 + size) (length bytes)) _ _
      (λ fits. (omega arith, leb→le (pos + 1 + size) (length bytes) fits)) (λ truncated. tt)

header_of-IsWithin :
    (bytes : List ℕ) (pos : ℕ) (o : Option ℕ)
    → get bytes pos ≡ o
    → WhenSome (λ h. IsWithin bytes pos h.header_end) (header_of bytes pos o)
header_of-IsWithin bytes pos none at = tt
header_of-IsWithin bytes pos (some initial) at =
    if-elim (WhenSome (λ h. IsWithin bytes pos h.header_end)) (ltb (initial % 32) 24) _ _
      (λ short. (
        omega arith,
        omega (arith, ap length (get-drop bytes pos initial at), length-drop pos bytes),
      ))
      (λ other.
        if-elim (WhenSome (λ h. IsWithin bytes pos h.header_end)) (leb (initial % 32) 27) _ _
          (λ long. long_header-IsWithin bytes pos initial (2 ^ (initial % 32 - 24)))
          (λ reserved. tt))

times-IsWithin :
    (bytes : List ℕ) (step : ℕ → Option ℕ)
    → ((pos : ℕ) → WhenSome (IsWithin bytes pos) (step pos))
    → (count start pos : ℕ) → IsWithin bytes start pos
    → WhenSome (IsWithin bytes start) (times count step pos)
times-IsWithin bytes step within zero start pos here = here
times-IsWithin bytes step within (suc count) start pos here =
    WhenSome-bind (IsWithin bytes pos) (IsWithin bytes start) (step pos) (times count step)
      (within pos)
      (λ next (ahead, inside).
        times-IsWithin bytes step within count start next (omega (arith, here.0, ahead), inside))

string_end-IsWithin :
    (bytes : List ℕ) (pos : ℕ) (h : Header)
    → IsWithin bytes pos h.header_end
    → WhenSome (IsWithin bytes pos) (string_end bytes h)
string_end-IsWithin bytes pos h (ahead, inside) =
    if-elim (WhenSome (IsWithin bytes pos))
      (ltb u64_max (h.header_end + h.argument) || ltb (length bytes) (h.header_end + h.argument)) _
      _ (λ long. tt) (λ fits. (omega arith, ground arith))

item_body-IsWithin :
    (bytes : List ℕ) (step : ℕ → Option ℕ)
    → ((pos : ℕ) → WhenSome (IsWithin bytes pos) (step pos))
    → (pos : ℕ) (o : Option Header) → WhenSome (λ h. IsWithin bytes pos h.header_end) o
    → WhenSome (IsWithin bytes pos) (item_body bytes step o)
item_body-IsWithin bytes step within pos none here = tt
item_body-IsWithin bytes step within pos (some h) here =
    if-elim (WhenSome (IsWithin bytes pos)) (h.major == 0 || h.major == 1 || h.major == 7) _ _
      (λ plain. here)
      (λ other.
        if-elim (WhenSome (IsWithin bytes pos)) (h.major == 2 || h.major == 3) _ _
          (λ string. string_end-IsWithin bytes pos h here)
          (λ deep.
            if-elim (WhenSome (IsWithin bytes pos)) (h.major == 4) _ _
              (λ array. times-IsWithin bytes step within h.argument pos h.header_end here)
              (λ no_array.
                if-elim (WhenSome (IsWithin bytes pos)) (h.major == 5) _ _
                  (λ map.
                    if-elim (WhenSome (IsWithin bytes pos)) (ltb u64_max (h.argument * 2)) _ _
                      (λ large. tt)
                      (λ fits.
                        times-IsWithin bytes step within (h.argument * 2) pos h.header_end here))
                  (λ tag.
                    WhenSome-map (IsWithin bytes h.header_end) (IsWithin bytes pos)
                      (step h.header_end) (within h.header_end)
                      (λ end (ahead, inside). (omega (arith, here.0, ahead), inside))))))

all-IsWithin :
    (bytes : List ℕ) (levels pos : ℕ) → WhenSome (IsWithin bytes pos) (item_end bytes levels pos)
unfolding item_end header
all-IsWithin bytes zero pos = tt
all-IsWithin bytes (suc levels) pos =
    item_body-IsWithin bytes (item_end bytes levels) (all-IsWithin bytes levels) pos
      (header bytes pos) (header_of-IsWithin bytes pos (get bytes pos) refl)

-- For any bytes whatever: where `item_end` finds an end, it is behind the position that it was asked
-- about, and not behind the last byte, so what lies between is a range of the bytes and is not empty.
pub item_end-IsWithin :
    (bytes : List ℕ) (levels pos end : ℕ)
    → item_end bytes levels pos ≡ some end
    → IsWithin bytes pos end
item_end-IsWithin bytes levels pos end ends =
    WhenSome-some (IsWithin bytes pos) (item_end bytes levels pos) end ends
      (all-IsWithin bytes levels pos)
