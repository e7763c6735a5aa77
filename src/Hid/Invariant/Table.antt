-- ===== src/Hid/Invariant/Table.antt =====
-- The channel table (`Channels` of ctaphid_host.rs) stays within its bound, distinct and usable.
use software_authenticator.Base.{
  ℕ, zero, suc, ◌-◌, ◌≤◌, ◌≡◌, ◌≢◌, inl, inr, refl, true, false, ◌||◌, Bool-cases, ==_iff, List, [],
  ◌∷◌, ◌++◌, arith, ◌==◌, length, drop, All, length-append, All-append,
}
use software_authenticator.Hid.Types.{CtaphidHost, max_channels, broadcast_cid}
use software_authenticator.Hid.Channels.{contains, remove_first, touch, insert, allocate_rounds}
use software_authenticator.Hid.Invariant.{IsClient, IsDistinct, IsTable, IsValid}

-- A channel is absent exactly when it differs from every entry.
pub All-ne_of_absent :
    (ids : List ℕ) (id : ℕ) → contains ids id ≡ false → All (λ other. other ≢ id) ids
unfolding contains
All-ne_of_absent [] id e = tt
All-ne_of_absent (x ∷ ids) id e = (ground arith, All-ne_of_absent ids id (ground arith))

pub absent_of_All-ne :
    (ids : List ℕ) (id : ℕ) → All (λ other. other ≢ id) ids → contains ids id ≡ false
unfolding contains
absent_of_All-ne [] id a = refl
absent_of_All-ne (x ∷ ids) id a = ground (arith, absent_of_All-ne ids id a.1)

IsDistinct-concat :
    (ids : List ℕ) (id : ℕ)
    → IsDistinct ids
    → All (λ other. other ≢ id) ids
    → IsDistinct (ids ++ id ∷ [])
IsDistinct-concat [] id d a = (tt, tt)
IsDistinct-concat (x ∷ ids) id d a = (
  All-append (λ other. other ≢ x) ids (id ∷ []) d.0 (λ e. a.0 (ground arith), tt),
  IsDistinct-concat ids id d.1 a.1,
)

All-remove_first {κ} :
    (P : ℕ → Type κ) (ids : List ℕ) (id : ℕ) → All P ids → All P (remove_first ids id)
unfolding remove_first
All-remove_first P [] id a = tt
All-remove_first P (x ∷ ids) id a = elim (Bool-cases (x == id)) [
  | inl e ↦ rw e a.1
  | inr e ↦ rw e (a.0, All-remove_first P ids id a.1)
]

remove_first-IsDistinct :
    (ids : List ℕ) (id : ℕ) → IsDistinct ids → IsDistinct (remove_first ids id)
unfolding remove_first
remove_first-IsDistinct [] id d = tt
remove_first-IsDistinct (x ∷ ids) id d = elim (Bool-cases (x == id)) [
  | inl e ↦ rw e d.1
  | inr e ↦
      rw e (All-remove_first (λ other. other ≢ x) ids id d.0, remove_first-IsDistinct ids id d.1)
]

-- Of distinct entries none is left once the first is gone.
remove_first-absent :
    (ids : List ℕ) (id : ℕ) → IsDistinct ids → All (λ other. other ≢ id) (remove_first ids id)
unfolding remove_first
remove_first-absent [] id d = tt
remove_first-absent (x ∷ ids) id d = elim (Bool-cases (x == id)) [
  | inl e ↦ rw (e, ← (==_iff x id).0 e) d.0
  | inr e ↦ rw e (λ p. ground arith, remove_first-absent ids id d.1)
]

length-remove_first :
    (ids : List ℕ) (id : ℕ)
    → contains ids id ≡ true
    → suc (length (remove_first ids id)) ≡ length ids
unfolding contains remove_first
length-remove_first [] id e = cc
length-remove_first (x ∷ ids) id e = ground (arith, length-remove_first ids id)

IsClient-of_contained :
    (ids : List ℕ) (id : ℕ) → contains ids id ≡ true → All IsClient ids → IsClient id
unfolding contains
IsClient-of_contained [] id e a = cc
IsClient-of_contained (x ∷ ids) id e a = elim (Bool-cases (x == id)) [
  | inl p ↦ rw (← (==_iff x id).0 p) a.0
  | inr p ↦ IsClient-of_contained ids id (ground arith) a.1
]

pub touch-IsTable : (ids : List ℕ) (id : ℕ) → IsTable ids → IsTable (touch ids id)
unfolding touch
touch-IsTable ids id (size, distinct, clients) = elim (Bool-cases (contains ids id)) [
  | inr e ↦ rw e (size, distinct, clients)
  | inl e ↦ rw e (
    omega (arith, length-append (remove_first ids id) (id ∷ []), length-remove_first ids id e),
    IsDistinct-concat (remove_first ids id) id (remove_first-IsDistinct ids id distinct)
        (remove_first-absent ids id distinct),
    All-append IsClient (remove_first ids id) (id ∷ []) (All-remove_first IsClient ids id clients)
        (IsClient-of_contained ids id e clients, tt),
  )
]

drop-IsTable :
    (ids : List ℕ)
    → IsTable ids
    → IsDistinct (drop 1 ids) × All IsClient (drop 1 ids) × (length (drop 1 ids) ≡ length ids - 1)
drop-IsTable [] t = (tt, tt, omega arith)
drop-IsTable (x ∷ ids) t = (t.1.1, t.2.1, omega arith)

drop-absent :
    (ids : List ℕ) (id : ℕ) → All (λ other. other ≢ id) ids → All (λ other. other ≢ id) (drop 1 ids)
drop-absent [] id a = tt
drop-absent (x ∷ ids) id a = a.1

concat-IsTable :
    (ids : List ℕ) (id : ℕ)
    → suc (length ids) ≤ max_channels
    → IsDistinct ids
    → All IsClient ids
    → All (λ other. other ≢ id) ids
    → IsClient id
    → IsTable (ids ++ id ∷ [])
concat-IsTable ids id size distinct clients fresh client = (
  omega (arith, length-append ids (id ∷ [])),
  IsDistinct-concat ids id distinct fresh,
  All-append IsClient ids (id ∷ []) clients (client, tt),
)

-- A new channel enters the table, in place of the least recently used one where the table is full.
pub insert-IsTable : (ids : List ℕ) (id : ℕ) → IsClient id → IsTable ids → IsTable (insert ids id).0
unfolding insert
insert-IsTable ids id client t = elim (Bool-cases (contains ids id)) [
  | inl e ↦ rw e t
  | inr e ↦ rw e (elim (Bool-cases (length ids == max_channels)) [
    | inl full ↦ rw full (
        concat-IsTable (drop 1 ids) id
          (omega (arith, t.0, (==_iff (length ids) max_channels).0 full, (drop-IsTable ids t).2))
          (drop-IsTable ids t).0 (drop-IsTable ids t).1
          (drop-absent ids id (All-ne_of_absent ids id e)) client)
    | inr room ↦ rw room (
        concat-IsTable ids id (not_full (length ids) t.0 room) t.1 t.2 (All-ne_of_absent ids id e)
          client)
  ])
]
  where
    not_full : (n : ℕ) → n ≤ max_channels → (n == max_channels) ≡ false → suc n ≤ max_channels
    not_full n h e = ground arith

pub IsClient-of_candidate : (id : ℕ) → (id == 0 || id == broadcast_cid) ≡ false → IsClient id
IsClient-of_candidate id e = (ground arith, ground arith)

pub allocate_rounds-IsValid :
    (n : ℕ) (h : CtaphidHost) → IsValid h → IsValid (allocate_rounds n h).0
unfolding allocate_rounds
allocate_rounds-IsValid zero h v = v
allocate_rounds-IsValid (suc n) h v = elim (Bool-cases (h.rng 0 == 0 || h.rng 0 == broadcast_cid)) [
  | inl reserved ↦ rw reserved (allocate_rounds-IsValid n (record h { rng = later }) drawn)
  | inr usable ↦ rw usable (elim (Bool-cases (insert h.channels (h.rng 0)).1) [
    | inl new ↦ rw new (record {
      base = (
        v.base.0,
        insert-IsTable h.channels (h.rng 0) (IsClient-of_candidate (h.rng 0) usable) v.base.1,
        v.base.2,
        v.base.3,
      );
      owned = v.owned;
    })
    | inr old ↦ rw old (allocate_rounds-IsValid n (record h { rng = later }) drawn)
  ])
]
  where
    later : ℕ → ℕ
    later n = h.rng (suc n)

    drawn : IsValid (record h { rng = later })
    drawn = record { base = v.base; owned = v.owned }
