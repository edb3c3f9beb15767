-- ===== src/Websocket/Safety.antt =====
-- backend/internal/websocket/hub.go: no case of Run panics, and what a broadcast delivers.
use open_music_player.Prelude.{
  ℕ, ◌≡◌, ◌≢◌, refl, ap, sym, subst, ◌∙◌, inl, inr, true, false, Option, some, List, [], ◌∷◌,
  if◌then◌else◌, ◌==◌, ==_iff, keep, not, All, arith, Bool-cases, Option-cases,
}
use open_music_player.Websocket.Hub.{
  ProgressMessage, Channel, Hub, update, member, add_client, or_empty, without_client, unless_empty,
  close_send, has_room, drain, new_hub, broadcast, register, unregister,
}
use open_music_player.Websocket.Deliver.{
  sent, Distinct, AllOpen, deliver_lem, All-keep, Distinct-keep, All-member, kept_open,
}

module _ (user_of : ℕ → ℕ) where
  -- A registered client stands under its own user, once, and its channel is open.
  abbrev pub IsSound : Hub → Type 0
  IsSound hub =
      (user : ℕ) (ps : List ℕ)
      → hub.clients user ≡ some ps
      → All (λ p. user_of p ≡ user) ps × Distinct ps × AllOpen hub.channels ps

  member-user :
      (ps : List ℕ) (user q : ℕ)
      → All (λ p. user_of p ≡ user) ps
      → user_of q ≢ user
      → member ps q ≡ false
  unfolding member
  member-user [] user q h ne = refl
  member-user (p ∷ ps) user q h ne =
      ground (arith, member-user ps user q h.1 ne, ne, h.0, ==_iff q p, ap user_of)

  -- Another user's clients are where they were.
  AllOpen-agree :
      (channels after : ℕ → Channel) (ps : List ℕ) (user : ℕ)
      → ((q : ℕ) → user_of q ≡ user → after q ≡ channels q)
      → All (λ p. user_of p ≡ user) ps
      → AllOpen channels ps
      → AllOpen after ps
  AllOpen-agree channels after [] user same h opened = tt
  AllOpen-agree channels after (p ∷ ps) user same h opened = (
    ap (λ c. c.closed) (same p h.0) ∙ opened.0,
    AllOpen-agree channels after ps user same h.1 opened.1,
  )

  broadcast_lem :
      (m : ProgressMessage) (hub : Hub)
      → IsSound hub
      → (after : Hub) × (broadcast m hub ≡ some after) × IsSound after
  unfolding broadcast
  broadcast_lem m hub sound = elim (Option-cases (hub.clients m.user_id)) [
    | inl nobody ↦ (hub, ground (arith, nobody), sound)
    | inr (ps, there) ↦
        let (owned, distinct, opened) = sound m.user_id ps there in
        let (channels, run, at) = deliver_lem m ps hub.channels distinct opened in
        let kept = keep (λ p. has_room (hub.channels p)) ps in
        let after : Hub = record {
          clients = update hub.clients m.user_id (some kept);
          channels = channels;
        } in
        (
          after,
          ground (arith, there, run),
          λ user qs h. elim (Bool-cases (user == m.user_id)) [
            | inl same ↦
                let own : user ≡ m.user_id = (==_iff user m.user_id).0 same in
                let e : kept ≡ qs = ground (arith, same, h) in
                subst (λ l. All (λ p. user_of p ≡ user) l × Distinct l × AllOpen channels l) e
                  (
                    All-keep (λ p. user_of p ≡ user) (λ p. has_room (hub.channels p)) ps
                        (subst (λ u. All (λ p. user_of p ≡ u) ps) (sym own) owned),
                    Distinct-keep (λ p. has_room (hub.channels p)) ps distinct,
                    kept_open m hub.channels channels ps ps at (All-member ps) opened,
                  )
            | inr different ↦
                let (owned', distinct', opened') = sound user qs (ground (arith, different, h)) in
                let apart : user ≢ m.user_id = λ e. absurd (ground (arith, e, different)) in
                (
                  owned',
                  distinct',
                  AllOpen-agree hub.channels channels qs user
                      (λ q uq.
                        let absent : member ps q ≡ false =
                          member-user ps m.user_id q owned (λ e. apart (sym uq ∙ e)) in
                        at q ∙ ground (arith, absent))
                      owned' opened',
                )
          ],
        )
  ]

  -- IsSound of one user's clients.
  abbrev Facts : (ℕ → Channel) → ℕ → List ℕ → Type 0
  Facts channels user ps = All (λ p. user_of p ≡ user) ps × Distinct ps × AllOpen channels ps

  or_empty-Facts :
      (hub : Hub) (user : ℕ) → IsSound hub → Facts hub.channels user (or_empty (hub.clients user))
  or_empty-Facts hub user sound = elim (Option-cases (hub.clients user)) [
    | inl nobody ↦ rw (nobody, or_empty) (tt, tt, tt)
    | inr (ps, there) ↦ rw (there, or_empty) (sound user ps there)
  ]

  add_client-Facts :
      (channels : ℕ → Channel) (p : ℕ) (ps : List ℕ)
      → (channels p).closed ≡ false
      → Facts channels (user_of p) ps
      → Facts channels (user_of p) (add_client ps p)
  unfolding add_client
  add_client-Facts channels p ps opened (owned, distinct, all_open) =
      elim (Bool-cases (member ps p)) [
        | inl there ↦ rw (there, add_client) (owned, distinct, all_open)
        | inr absent ↦
            rw (absent, add_client) ((refl, owned), (absent, distinct), (opened, all_open))
      ]

  register_lem :
      (p : ℕ) (hub : Hub)
      → IsSound hub
      → (hub.channels p).closed ≡ false
      → IsSound (register user_of p hub)
  unfolding register
  register_lem p hub sound opened user qs h = elim (Bool-cases (user == user_of p)) [
    | inr different ↦ sound user qs (ground (arith, different, h))
    | inl same ↦
        let own : user ≡ user_of p = (==_iff user (user_of p)).0 same in
        let base = or_empty (hub.clients (user_of p)) in
        let e : add_client base p ≡ qs = ground (arith, same, h) in
        subst (λ l. Facts hub.channels user l) e
          (subst (λ u. Facts hub.channels u (add_client base p)) (sym own)
            (add_client-Facts hub.channels p base opened (or_empty-Facts hub (user_of p) sound)))
  ]

  without_open :
      (channels : ℕ → Channel) (p : ℕ) (channel : Channel) (ps : List ℕ)
      → AllOpen channels ps
      → AllOpen (update channels p channel) (without_client ps p)
  without_open channels p channel [] h = tt
  without_open channels p channel (q ∷ ps) h = elim (Bool-cases (q == p)) [
    | inl gone ↦ rw (gone, keep) (without_open channels p channel ps h.1)
    | inr stays ↦
        rw (stays, keep) (ground (arith, stays, h.0), without_open channels p channel ps h.1)
  ]

  member-open :
      (channels : ℕ → Channel) (ps : List ℕ) (p : ℕ)
      → AllOpen channels ps
      → member ps p ≡ true
      → (channels p).closed ≡ false
  unfolding member
  member-open channels [] p h there = absurd (cc there)
  member-open channels (q ∷ ps) p h there = elim (Bool-cases (p == q)) [
    | inl same ↦ subst (λ x. (channels x).closed ≡ false) (sym ((==_iff p q).0 same)) h.0
    | inr other ↦ member-open channels ps p h.1 (ground (arith, other, there))
  ]

  unless_empty-some : (ps qs : List ℕ) → unless_empty ps ≡ some qs → ps ≡ qs
  unless_empty-some [] qs h = absurd (cc h)
  unless_empty-some (p ∷ ps) qs h = cc h

  unregister_lem :
      (p : ℕ) (hub : Hub)
      → IsSound hub
      → (after : Hub) × (unregister user_of p hub ≡ some after) × IsSound after
  unfolding unregister close_send
  unregister_lem p hub sound = elim (Option-cases (hub.clients (user_of p))) [
    | inl nobody ↦ (hub, ground (arith, nobody), sound)
    | inr (ps, there) ↦ elim (Bool-cases (member ps p)) [
      | inr absent ↦ (hub, ground (arith, there, absent), sound)
      | inl present ↦
          let (owned, distinct, opened) = sound (user_of p) ps there in
          let closing : Channel = record (hub.channels p) { closed = true } in
          let channels = update hub.channels p closing in
          let after : Hub = record {
            clients = update hub.clients (user_of p) (unless_empty (without_client ps p));
            channels = channels;
          } in
          (
            after,
            ground (arith, there, present, member-open hub.channels ps p opened present),
            λ user qs h. elim (Bool-cases (user == user_of p)) [
              | inl same ↦
                  let own : user ≡ user_of p = (==_iff user (user_of p)).0 same in
                  let e : without_client ps p ≡ qs =
                    unless_empty-some (without_client ps p) qs (ground (arith, same, h)) in
                  subst (λ l. Facts channels user l) e
                    (
                      All-keep (λ q. user_of q ≡ user) (λ q. not (q == p)) ps
                          (subst (λ u. All (λ q. user_of q ≡ u) ps) (sym own) owned),
                      Distinct-keep (λ q. not (q == p)) ps distinct,
                      without_open hub.channels p closing ps opened,
                    )
              | inr different ↦
                  let (owned', distinct', opened') = sound user qs (ground (arith, different, h)) in
                  let apart : user ≢ user_of p = λ e. absurd (ground (arith, e, different)) in
                  (
                    owned',
                    distinct',
                    AllOpen-agree hub.channels channels qs user
                        (λ q uq.
                          let other : q ≢ p = λ e. apart (sym uq ∙ ap user_of e) in
                          ground (arith, other))
                        owned' opened',
                  )
            ],
          )
    ]
  ]

  -- What the hub's loop and the connections' goroutines do in turn. A client registers with the
  -- channel that NewClient made; WritePump takes the next message from it.
  pub data Reachable : Hub → Type 0 where
    started : {channels : ℕ → Channel} → Reachable (new_hub channels)
    registered :
        {hub : Hub} (p : ℕ)
        → Reachable hub
        → (hub.channels p).closed ≡ false
        → Reachable (register user_of p hub)
    unregistered :
        {hub after : Hub} (p : ℕ)
        → Reachable hub
        → unregister user_of p hub ≡ some after
        → Reachable after
    broadcasted :
        {hub after : Hub} (m : ProgressMessage)
        → Reachable hub
        → broadcast m hub ≡ some after
        → Reachable after
    drained : {hub : Hub} (p : ℕ) → Reachable hub → Reachable (drain p hub)

  drain-IsSound : (p : ℕ) (hub : Hub) → IsSound hub → IsSound (drain p hub)
  unfolding drain
  drain-IsSound p hub sound user qs h =
      let (owned, distinct, opened) = sound user qs h in (owned, distinct, still_open qs opened)
    where
      still_open : (ps : List ℕ) → AllOpen hub.channels ps → AllOpen (drain p hub).channels ps
      still_open [] h = tt
      still_open (q ∷ ps) h = (ground (arith, h.0, ==_iff q p, ap hub.channels), still_open ps h.1)

  some_same : {a : Option Hub} (x y : Hub) → a ≡ some x → a ≡ some y → IsSound x → IsSound y
  some_same x y e f sound = let same : x ≡ y = cc (e, f) in subst IsSound same sound

  Reachable-IsSound : (hub : Hub) → Reachable hub → IsSound hub
  Reachable-IsSound _ started = λ user ps h. absurd (cc h)
  Reachable-IsSound _ (registered {hub} p before opened) =
      register_lem p hub (Reachable-IsSound hub before) opened
  Reachable-IsSound _ (unregistered {hub} {after} p before h) =
      let (x, run, sound) = unregister_lem p hub (Reachable-IsSound hub before) in
      some_same x after run h sound
  Reachable-IsSound _ (broadcasted {hub} {after} m before h) =
      let (x, run, sound) = broadcast_lem m hub (Reachable-IsSound hub before) in
      some_same x after run h sound
  Reachable-IsSound _ (drained {hub} p before) = drain-IsSound p hub (Reachable-IsSound hub before)

  -- In every order of registrations, unregistrations, broadcasts and reads by the clients, each
  -- registered client stands once under its user with an open channel, and the next unregistration
  -- or broadcast does not panic: no channel is closed twice or sent to after its close.
  pub never_panics :
      (hub : Hub)
      → Reachable hub
      → IsSound hub
        × ((p : ℕ) → (after : Hub) × (unregister user_of p hub ≡ some after))
        × ((m : ProgressMessage) → (after : Hub) × (broadcast m hub ≡ some after))
  never_panics hub reached =
      let sound = Reachable-IsSound hub reached in
      (
        sound,
        (λ p. let (after, run, kept) = unregister_lem p hub sound in (after, run)),
        λ m. let (after, run, kept) = broadcast_lem m hub sound in (after, run),
      )

  -- A broadcast to a user's clients appends the message to the channel of each that has room and
  -- closes the channel of each that has not; the first stay registered, the second do not; every
  -- other channel is as before.
  pub broadcast_delivers :
      (m : ProgressMessage) (hub : Hub) (ps : List ℕ)
      → IsSound hub
      → hub.clients m.user_id ≡ some ps
      → (after : Hub) × (broadcast m hub ≡ some after)
        × (after.clients m.user_id ≡ some (keep (λ p. has_room (hub.channels p)) ps))
        × ((q : ℕ)
            → after.channels q ≡ (if member ps q then sent m (hub.channels q) else hub.channels q))
  unfolding broadcast
  broadcast_delivers m hub ps sound there =
      let (owned, distinct, opened) = sound m.user_id ps there in
      let (channels, run, at) = deliver_lem m ps hub.channels distinct opened in
      let kept = keep (λ p. has_room (hub.channels p)) ps in
      (
        record { clients = update hub.clients m.user_id (some kept); channels = channels },
        ground (arith, there, run),
        ground arith,
        at,
      )
