-- ===== src/Hid/Channels.antt =====
-- `Channels` and `allocate_channel` of ctaphid_host.rs. The head of the list is the front of the
-- deque, the least recently used channel.
use software_authenticator.Base.{
  ℕ, zero, suc, Bool, true, false, ◌||◌, Option, none, some, List, [], ◌∷◌, ◌++◌, ◌==◌,
  if◌then◌else◌, length, drop,
}
use software_authenticator.Hid.Types.{
  CtaphidHost, max_channels, broadcast_cid, channel_generation_retry_limit,
}

unfoldable pub contains : List ℕ → ℕ → Bool
contains [] id = false
contains (known ∷ ids) id = known == id || contains ids id

-- `ids.remove(position of id)`.
unfoldable pub remove_first : List ℕ → ℕ → List ℕ
remove_first [] id = []
remove_first (known ∷ ids) id = if known == id then ids else known ∷ remove_first ids id

unfoldable pub touch : List ℕ → ℕ → List ℕ
unfolding contains remove_first
touch ids id = if contains ids id then remove_first ids id ++ id ∷ [] else ids

-- The new table, and whether `id` was allocated.
unfoldable pub insert : List ℕ → ℕ → List ℕ × Bool
unfolding contains
insert ids id =
    if contains ids id
    then (ids, false)
    else ((if length ids == max_channels then drop 1 ids else ids) ++ id ∷ [], true)

-- `rng.next_u32()`.
abbrev next_u32 : CtaphidHost → CtaphidHost × ℕ
next_u32 h = (record h { rng = λ n. h.rng (suc n) }, h.rng 0)

-- The loop of `allocate_channel`, on the rounds left.
unfoldable pub allocate_rounds : ℕ → CtaphidHost → CtaphidHost × Option ℕ
allocate_rounds zero h = (h, none)
allocate_rounds (suc rounds) h =
    let (h', candidate) = next_u32 h in
    let rest = allocate_rounds rounds h' in
    if candidate == 0 || candidate == broadcast_cid
    then rest
    else let (channels, inserted) = insert h'.channels candidate in
      if inserted then (record h' { channels = channels }, some candidate) else rest

unfoldable pub allocate_channel : CtaphidHost → CtaphidHost × Option ℕ
allocate_channel h = allocate_rounds channel_generation_retry_limit h
