-- ===== src/Hub/Broadcast.antt =====
-- The broadcast to all, shard by shard (sendToAll, enqueueBroadcastAll and broadcastWorker of
-- pkg/websocket/websocket.go).
use native.Mathlib.Nat.{mod-lt}
use ling_framework.Base.{
  if_holds, nat_beq_iff, if◌then◌else◌, ℕ, zero, suc, ◌<◌, ◌≡◌, refl, ap, ◌∙◌, Bool, true, false,
  ◌&&◌, Option, none, some, List, [], ◌∷◌, arith, Str, str_comparable, member, nat_beq, ltb, leb,
  Bool-cases, inl, inr,
}
use ling_framework.Base.Dict.{Dict, fetch, keys, is_some, member-keys}
use ling_framework.Hub.{Connection, HubConfig, Hub, Objects, shard_index, fnv32a}
use ling_framework.Hub.Consistent.{holder}
use ling_framework.Hub.Delivery.{send_found, send_each, send_to_shard, broadcast_from, send_to_all}
use ling_framework.Hub.Sent.{
  Named, receives, receives-Alike, is_at, send_at-tables, send_each-objects,
}
use ling_framework.Hub.Kept.{IsSound, broadcast-IsSound}

-- The hubs differ in their objects and in whether they panicked at most.
abbrev SameTables : Hub → Hub → Type 0
SameTables h g = (o : Objects) × (p : Bool) × (g ≡ record h { objects = o; panicked = p })

abbrev refill : Objects → Bool → Hub → Hub
refill o p h = record h { objects = o; panicked = p }

module _ (accepts : ℕ → Bool) (drained : Bool) (bytes : Str) where
  SameTables-send_found :
      (found : Option ℕ) (h : Hub) → SameTables h (send_found drained bytes found h)
  SameTables-send_found none h = (h.objects, h.panicked, refl)
  SameTables-send_found (some at) h = send_at-tables drained bytes at h

  SameTables-trans : (h g k : Hub) → SameTables h g → SameTables g k → SameTables h k
  SameTables-trans h g k (o, p, e) (o', p', e') = (o', p', e' ∙ ap (refill o' p') e)

  SameTables-send_each :
      (table : Dict Str ℕ) (ids : List Str) (h : Hub)
      → SameTables h (send_each drained bytes table ids h)
  unfolding send_each
  SameTables-send_each table [] h = (h.objects, h.panicked, refl)
  SameTables-send_each table (id ∷ ids) h =
      let next = send_found drained bytes (fetch table id) h in
      SameTables-trans h next (send_each drained bytes table ids next)
        (SameTables-send_found (fetch table id) h) (SameTables-send_each table ids next)

  SameTables-broadcast_from :
      (n : ℕ) (h : Hub) → SameTables h (broadcast_from accepts drained bytes n h)
  unfolding broadcast_from
  SameTables-broadcast_from zero h = (h.objects, h.panicked, refl)
  SameTables-broadcast_from (suc n) h =
      let g = broadcast_from accepts drained bytes n h in
      if_holds (SameTables h) (accepts n) (send_to_shard drained bytes n g) g
        (λ taken.
          SameTables-trans h g (send_to_shard drained bytes n g) (SameTables-broadcast_from n h)
            (SameTables-send_each (g.shard_conns n) (keys (g.shard_conns n)) g))
        (λ dropped. SameTables-broadcast_from n h)

  in_shard :
      (h : Hub) (n : ℕ) (id : Str) (b : ℕ)
      → IsSound h
      → (member id (keys (h.shard_conns n)) && is_at (fetch (h.shard_conns n) id) b)
        ≡ (is_at (holder h id) b && nat_beq (shard_index h.config.shard_count id) n)
  in_shard h n id b s =
      rw (member-keys (h.shard_conns n) id, s.consistent.by_shard n id)
        (elim (Bool-cases (nat_beq (shard_index h.config.shard_count id) n)) [
          | inr e ↦ rw e ground arith
          | inl e ↦ rw e (by_holder (holder h id))
        ])
    where
      by_holder : (found : Option ℕ) → (is_some found && is_at found b) ≡ (is_at found b && true)
      by_holder none = refl
      by_holder (some a) = ground arith

  one_more :
      (config : HubConfig) (held : Bool) (sh n : ℕ) (c : Connection)
      → accepts n ≡ true
      → receives config drained bytes
          (held && nat_beq sh n)
          (receives config drained bytes (held && (ltb sh n && accepts sh)) c)
        ≡ receives config drained bytes (held && (ltb sh (suc n) && accepts sh)) c
  one_more config false sh n c taken = refl
  one_more config true sh n c taken = elim (Bool-cases (nat_beq sh n)) [
    | inl e ↦
        let not_yet : ltb sh n ≡ false = ground arith in
        let now : ltb sh (suc n) ≡ true = ground arith in
        let same : accepts sh ≡ true = ap accepts ((nat_beq_iff sh n).0 e) ∙ taken in
        rw (e, not_yet, now, same) refl
    | inr e ↦ let both : ltb sh (suc n) ≡ ltb sh n = ground arith in rw (e, both) refl
  ]

  none_more :
      (sh n : ℕ) → accepts n ≡ false → (ltb sh n && accepts sh) ≡ (ltb sh (suc n) && accepts sh)
  none_more sh n dropped = ground (arith, nat_beq_iff sh n, ap accepts, dropped)

  shard-Named : (h : Hub) (n : ℕ) → IsSound h → Named (h.shard_conns n) h.objects
  shard-Named h n s id at e =
      s.consistent.own_id id at (ground (arith, e, s.consistent.by_shard n id))

  -- One shard more, whose job is accepted.
  shard-objects :
      (n : ℕ) (h : Hub)
      → IsSound h
      → accepts n ≡ true
      → (b : ℕ)
      → (broadcast_from accepts drained bytes n h).objects b
        ≡ receives h.config drained bytes
            (is_at (holder h (h.objects b).id) b
              && (ltb (shard_index h.config.shard_count (h.objects b).id) n
                  && accepts (shard_index h.config.shard_count (h.objects b).id)))
            (h.objects b)
      → (send_to_shard drained bytes n (broadcast_from accepts drained bytes n h)).objects b
        ≡ receives h.config drained bytes
            (is_at (holder h (h.objects b).id) b
              && (ltb (shard_index h.config.shard_count (h.objects b).id) (suc n)
                  && accepts (shard_index h.config.shard_count (h.objects b).id)))
            (h.objects b)
  shard-objects n h s taken b before =
      let g = broadcast_from accepts drained bytes n h in
      let sound = broadcast-IsSound accepts drained bytes n h s in
      let own = (h.objects b).id in
      let sh = shard_index h.config.shard_count own in
      let (o, p, same) = SameTables-broadcast_from n h in
      let name : (g.objects b).id ≡ own =
        ap (λ c. c.id) before
        ∙ (receives-Alike h.config drained bytes
            (is_at (holder h own) b && (ltb sh n && accepts sh)) (h.objects b)).0 in
      send_each-objects drained bytes (g.shard_conns n) (keys (g.shard_conns n)) g
        (sound.counted.shards n) (shard-Named g n sound) b
      ∙ ap (λ w. receives g.config drained bytes w (g.objects b))
          (in_shard g n (g.objects b).id b sound)
      ∙ ap
          (λ w.
            receives w.config drained bytes
              (is_at (holder w (g.objects b).id) b
                && nat_beq (shard_index w.config.shard_count (g.objects b).id) n)
              (g.objects b))
          same
      ∙ ap
          (λ id.
            receives h.config drained bytes
              (is_at (holder h id) b && nat_beq (shard_index h.config.shard_count id) n)
              (g.objects b))
          name
      ∙ ap (receives h.config drained bytes (is_at (holder h own) b && nat_beq sh n)) before
      ∙ one_more h.config (is_at (holder h own) b) sh n (h.objects b) taken

  broadcast_from-objects :
      (n : ℕ) (h : Hub)
      → IsSound h
      → (b : ℕ)
      → (broadcast_from accepts drained bytes n h).objects b
        ≡ receives h.config drained bytes
            (is_at (holder h (h.objects b).id) b
              && (ltb (shard_index h.config.shard_count (h.objects b).id) n
                  && accepts (shard_index h.config.shard_count (h.objects b).id)))
            (h.objects b)
  unfolding broadcast_from
  broadcast_from-objects zero h s b = elim (Bool-cases (is_at (holder h (h.objects b).id) b)) [
    | inl e ↦ rw e ground arith
    | inr e ↦ rw e refl
  ]
  broadcast_from-objects (suc n) h s b = elim (Bool-cases (accepts n)) [
    | inl taken ↦
        ap
          (λ t.
            (if t
                then send_to_shard drained bytes n (broadcast_from accepts drained bytes n h)
                else broadcast_from accepts drained bytes n h).objects
              b)
          taken
        ∙ shard-objects n h s taken b (broadcast_from-objects n h s b)
    | inr dropped ↦
        ap
          (λ t.
            (if t
                then send_to_shard drained bytes n (broadcast_from accepts drained bytes n h)
                else broadcast_from accepts drained bytes n h).objects
              b)
          dropped
        ∙ broadcast_from-objects n h s b
        ∙ ap
            (λ t.
              receives h.config drained bytes (is_at (holder h (h.objects b).id) b && t)
                (h.objects b))
            (none_more (shard_index h.config.shard_count (h.objects b).id) n dropped)
  ]

  shard_below : (count : ℕ) (id : Str) → 0 < count → ltb (shard_index count id) count ≡ true
  unfolding shard_index
  shard_below count id h = elim (Bool-cases (leb count 1)) [
    | inl e ↦ rw e (ground arith)
    | inr e ↦ rw e (ground (arith, mod-lt (fnv32a 2166136261 id) {m = count} h))
  ]

  -- Take a hub whose tables agree (IsSound, which Reach-new_hub gives for its runs) and that has a
  -- shard. A message to all is sent once to each connection that is registered and alive, and for
  -- whose shard the queue of the jobs has room; for the connections of the other shards it is
  -- dropped, and nobody else gets it. The jobs are worked off one after another, with no other
  -- method in between.
  pub send_to_all-receives :
      (h : Hub)
      → IsSound h
      → 0 < h.config.shard_count
      → (b : ℕ)
      → (send_to_all accepts drained bytes h).objects b
        ≡ receives h.config drained bytes
            (is_at (holder h (h.objects b).id) b
              && accepts (shard_index h.config.shard_count (h.objects b).id))
            (h.objects b)
  send_to_all-receives h s positive b =
      let sh = shard_index h.config.shard_count (h.objects b).id in
      broadcast_from-objects h.config.shard_count h s b
      ∙ ap
          (λ w.
            receives h.config drained bytes
              (is_at (holder h (h.objects b).id) b && (w && accepts sh)) (h.objects b))
          (shard_below h.config.shard_count (h.objects b).id positive)
