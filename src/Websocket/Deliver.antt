-- ===== src/Websocket/Deliver.antt =====
-- backend/internal/websocket/hub.go: the loop of a broadcast over a user's clients.
use open_music_player.Prelude.{
  ℕ, ◌≡◌, refl, inl, inr, Bool, true, false, some, List, [], ◌∷◌, ◌++◌, if◌then◌else◌, ==_iff, keep,
  All, arith, Bool-cases,
}
use open_music_player.Websocket.Hub.{ProgressMessage, Channel, update, member, has_room, deliver}

-- What a broadcast makes of the channel of a client that it reaches.
abbrev pub sent : ProgressMessage → Channel → Channel
sent m channel =
    if has_room channel
    then record channel { buffer = channel.buffer ++ (m ∷ []) }
    else record channel { closed = true }

abbrev pub Distinct : List ℕ → Type 0
Distinct [] = Unit {0}
Distinct (p ∷ ps) = (member ps p ≡ false) × Distinct ps

abbrev pub AllOpen : (ℕ → Channel) → List ℕ → Type 0
AllOpen channels ps = All (λ p. (channels p).closed ≡ false) ps

pub AllOpen-update :
    (channels : ℕ → Channel) (p : ℕ) (channel : Channel) (ps : List ℕ)
    → member ps p ≡ false
    → AllOpen channels ps
    → AllOpen (update channels p channel) ps
unfolding member
AllOpen-update channels p channel [] absent h = tt
AllOpen-update channels p channel (q ∷ ps) absent h =
    (ground (arith, absent, h.0), AllOpen-update channels p channel ps (ground (arith, absent)) h.1)

pub keep-update :
    (channels : ℕ → Channel) (p : ℕ) (channel : Channel) (ps : List ℕ)
    → member ps p ≡ false
    → keep (λ q. has_room (update channels p channel q)) ps ≡ keep (λ q. has_room (channels q)) ps
unfolding member
keep-update channels p channel [] absent = refl
keep-update channels p channel (q ∷ ps) absent =
    ground (arith, absent, keep-update channels p channel ps (ground (arith, absent)))

-- What the loop of a broadcast does to open channels.
abbrev pub Delivers : ProgressMessage → List ℕ → (ℕ → Channel) → Type 0
Delivers m ps channels =
    (after : ℕ → Channel) × (deliver m ps channels
      ≡ some (keep (λ p. has_room (channels p)) ps, after))
    × ((q : ℕ) → after q ≡ (if member ps q then sent m (channels q) else channels q))

pub deliver_lem :
    (m : ProgressMessage) (ps : List ℕ) (channels : ℕ → Channel)
    → Distinct ps
    → AllOpen channels ps
    → Delivers m ps channels
unfolding deliver member
deliver_lem m [] channels distinct opened = (channels, refl, λ q. refl)
deliver_lem m (p ∷ ps) channels distinct opened = elim (Bool-cases (has_room (channels p))) [
  | inl room ↦
      let channel = record (channels p) { buffer = (channels p).buffer ++ (m ∷ []) } in
      let (after, run, at) =
        deliver_lem m ps (update channels p channel) distinct.1
          (AllOpen-update channels p channel ps distinct.0 opened.1) in
      (
        after,
        ground (arith, opened.0, room, run, keep-update channels p channel ps distinct.0),
        λ q. ground (arith, at q, room, distinct.0, ==_iff q p),
      )
  | inr full ↦
      let channel = record (channels p) { closed = true } in
      let (after, run, at) =
        deliver_lem m ps (update channels p channel) distinct.1
          (AllOpen-update channels p channel ps distinct.0 opened.1) in
      (
        after,
        ground (arith, opened.0, full, run, keep-update channels p channel ps distinct.0),
        λ q. ground (arith, at q, full, distinct.0, ==_iff q p),
      )
]

-- Keeping part of a list keeps these.
pub All-keep {κ} : (P : ℕ → Type κ) (p : ℕ → Bool) (ps : List ℕ) → All P ps → All P (keep p ps)
All-keep P p [] h = tt
All-keep P p (x ∷ xs) h = elim (Bool-cases (p x)) [
  | inl stays ↦ rw (stays, keep) (h.0, All-keep P p xs h.1)
  | inr goes ↦ rw (goes, keep) (All-keep P p xs h.1)
]

pub member-keep :
    (p : ℕ → Bool) (ps : List ℕ) (q : ℕ) → member ps q ≡ false → member (keep p ps) q ≡ false
unfolding member
member-keep p [] q h = refl
member-keep p (x ∷ xs) q h = ground (arith, h, member-keep p xs q)

pub Distinct-keep : (p : ℕ → Bool) (ps : List ℕ) → Distinct ps → Distinct (keep p ps)
Distinct-keep p [] h = tt
Distinct-keep p (x ∷ xs) h = elim (Bool-cases (p x)) [
  | inl stays ↦ rw (stays, keep) (member-keep p xs x h.0, Distinct-keep p xs h.1)
  | inr goes ↦ rw (goes, keep) (Distinct-keep p xs h.1)
]

All-member_more :
    (x : ℕ) (xs ys : List ℕ)
    → All (λ y. member xs y ≡ true) ys
    → All (λ y. member (x ∷ xs) y ≡ true) ys
unfolding member
All-member_more x xs [] h = tt
All-member_more x xs (y ∷ ys) h = (ground (arith, h.0), All-member_more x xs ys h.1)

pub All-member : (ps : List ℕ) → All (λ p. member ps p ≡ true) ps
All-member [] = tt
All-member (p ∷ ps) = (unfold member in ground arith, All-member_more p ps ps (All-member ps))

-- The clients that stay are open.
pub kept_open :
    (m : ProgressMessage) (channels after : ℕ → Channel) (ps qs : List ℕ)
    → ((q : ℕ) → after q ≡ (if member ps q then sent m (channels q) else channels q))
    → All (λ q. member ps q ≡ true) qs
    → AllOpen channels qs
    → AllOpen after (keep (λ q. has_room (channels q)) qs)
kept_open m channels after ps [] at h opened = tt
kept_open m channels after ps (q ∷ qs) at h opened = elim (Bool-cases (has_room (channels q))) [
  | inl room ↦
      rw (room, keep)
        (
          ground (arith, at q, h.0, room, opened.0),
          kept_open m channels after ps qs at h.1 opened.1,
        )
  | inr full ↦ rw (full, keep) (kept_open m channels after ps qs at h.1 opened.1)
]
