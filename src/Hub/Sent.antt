-- ===== src/Hub/Sent.antt =====
-- Whom a message reaches (sendToUser, sendToGroup and the broadcast of pkg/websocket/websocket.go).
use ling_framework.Base.{
  ℕ, ◌≡◌, refl, sym, ap, ◌∙◌, Bool, true, false, ◌&&◌, ◌||◌, Option, none, some, List, [], ◌∷◌,
  arith, Str, str_comparable, member, Distinct, nat_beq, nat_beq_iff, ◌==◌, Bool-cases,
  Option-cases, if◌then◌else◌, inl, inr, subst,
}
use ling_framework.Base.Dict.{Dict, fetch}
use ling_framework.Hub.{Connection, HubConfig, Hub, Objects, put_object}
use ling_framework.Hub.Consistent.{Alike}
use ling_framework.Hub.Delivery.{try_send, send_at, send_found, send_each}

-- The connection that a table has under an id is the one at the address.
abbrev pub is_at : Option ℕ → ℕ → Bool
is_at none b = false
is_at (some a) b = nat_beq a b

-- The table holds connections under their ids.
abbrev pub Named : Dict Str ℕ → Objects → Type 0
Named table objects = (id : Str) (at : ℕ) → fetch table id ≡ some at → (objects at).id ≡ id

module _ (config : HubConfig) (drained : Bool) (bytes : Str) where
  -- The connection after a message was sent to it or not.
  abbrev pub receives : Bool → Connection → Connection
  receives hit c = if hit && c.is_alive then try_send config drained bytes c else c

  pub try_send-Alike : (c : Connection) → Alike c (try_send config drained bytes c)
  unfolding try_send
  try_send-Alike c = ground arith

  pub receives-Alike : (hit : Bool) (c : Connection) → Alike c (receives hit c)
  unfolding try_send
  receives-Alike hit c = ground arith

  receives-alive : (hit : Bool) (c : Connection) → (receives hit c).is_alive ≡ c.is_alive
  unfolding try_send
  receives-alive hit c = ground arith

module _ (drained : Bool) (bytes : Str) where
  at_itself :
      (at : ℕ) (h : Hub)
      → (send_at drained bytes at h).objects at
        ≡ receives h.config drained bytes true (h.objects at)
  unfolding send_at
  at_itself at h = elim (Bool-cases (h.objects at).is_alive) [
    | inl e ↦ rw (e, (nat_beq_iff at at).1 refl) refl
    | inr e ↦ simp e refl
  ]

  elsewhere :
      (at : ℕ) (h : Hub) (b : ℕ)
      → nat_beq at b ≡ false
      → (send_at drained bytes at h).objects b ≡ h.objects b
  unfolding send_at
  elsewhere at h b e = elim (Bool-cases (h.objects at).is_alive) [
    | inl k ↦ rw (k, e) refl
    | inr k ↦ rw k refl
  ]

  send_at-objects :
      (at : ℕ) (h : Hub) (b : ℕ)
      → (send_at drained bytes at h).objects b
        ≡ receives h.config drained bytes (nat_beq at b) (h.objects b)
  unfolding send_at
  send_at-objects at h b = elim (Bool-cases (nat_beq at b)) [
    | inl e ↦
        let same : at ≡ b = (nat_beq_iff at b).0 e in
        rw e (
          subst
            (λ w.
              (send_at drained bytes at h).objects w
              ≡ receives h.config drained bytes true (h.objects w))
            same (at_itself at h))
    | inr e ↦ rw e (elsewhere at h b e)
  ]

  pub send_at-tables :
      (at : ℕ) (h : Hub)
      → (o : Objects) × (p : Bool) × (send_at drained bytes at h
          ≡ record h { objects = o; panicked = p })
  unfolding send_at
  send_at-tables at h = elim (Bool-cases (h.objects at).is_alive) [
    | inl e ↦ (
      put_object at (try_send h.config drained bytes (h.objects at)) h.objects,
      h.panicked || (h.objects at).send_closed,
      rw e refl,
    )
    | inr e ↦ (h.objects, h.panicked, rw e refl)
  ]

  send_found-objects :
      (found : Option ℕ) (h : Hub) (b : ℕ)
      → (send_found drained bytes found h).objects b
        ≡ receives h.config drained bytes (is_at found b) (h.objects b)
  send_found-objects none h b = refl
  send_found-objects (some at) h b = send_at-objects at h b

  send_found-config :
      (found : Option ℕ) (h : Hub) → (send_found drained bytes found h).config ≡ h.config
  send_found-config none h = refl
  send_found-config (some at) h = ap (λ w. w.config) (send_at-tables at h).2

  misses :
      (table : Dict Str ℕ) (objects : Objects) (id : Str) (b : ℕ)
      → Named table objects
      → (id == (objects b).id) ≡ false
      → is_at (fetch table id) b ≡ false
  misses table objects id b n e = elim (Option-cases (fetch table id)) [
    | inl absent ↦ ap (λ o. is_at o b) absent
    | inr (a, found) ↦
        ap (λ o. is_at o b) found
        ∙ ground (
          arith,
          e,
          nat_beq_iff a b,
          n id a found,
          ap (λ w. (objects w).id),
          str_comparable.same_iff id (objects b).id,
        )
  ]

  Named-after :
      (table : Dict Str ℕ) (before after : Objects)
      → ((b : ℕ) → (after b).id ≡ (before b).id)
      → Named table before
      → Named table after
  Named-after table before after s n id at found = s at ∙ n id at found

  once :
      (config : HubConfig) (first member_later held hit_first : Bool) (c : Connection)
      → (first ≡ true → (hit_first ≡ held) × (member_later ≡ false))
      → (first ≡ false → hit_first ≡ false)
      → receives config drained bytes
          (member_later && held)
          (receives config drained bytes hit_first c)
        ≡ receives config drained bytes ((first || member_later) && held) c
  once config true later held hit c h k = rw ((h refl).0, (h refl).1) refl
  once config false later held hit c h k = rw (k refl) refl

  pub send_each-objects :
      (table : Dict Str ℕ) (ids : List Str) (h : Hub)
      → Distinct ids
      → Named table h.objects
      → (b : ℕ)
      → (send_each drained bytes table ids h).objects b
        ≡ receives h.config drained bytes
            (member (h.objects b).id ids && is_at (fetch table (h.objects b).id) b)
            (h.objects b)
  unfolding send_each
  send_each-objects table [] h d n b = refl
  send_each-objects table (id ∷ ids) h d n b =
      let found = fetch table id in
      let next = send_found drained bytes found h in
      let shape : (a : ℕ) → (next.objects a).id ≡ (h.objects a).id = λ a.
        ap (λ c. c.id) (send_found-objects found h a)
        ∙ (receives-Alike h.config drained bytes (is_at found a) (h.objects a)).0 in
      let own = (h.objects b).id in
      send_each-objects table ids next d.1 (Named-after table h.objects next.objects shape n) b
      ∙ ap
          (λ i.
            receives next.config drained bytes (member i ids && is_at (fetch table i) b)
              (next.objects b))
          (shape b)
      ∙ ap
          (λ g.
            receives g drained bytes (member own ids && is_at (fetch table own) b) (next.objects b))
          (send_found-config found h)
      ∙ ap (receives h.config drained bytes (member own ids && is_at (fetch table own) b))
          (send_found-objects found h b)
      ∙ once h.config (id == own) (member own ids) (is_at (fetch table own) b) (is_at found b)
          (h.objects b)
          (λ e.
            let same : id ≡ own = (str_comparable.same_iff id own).0 e in
            (ap (λ w. is_at (fetch table w) b) same, ap (λ w. member w ids) (sym same) ∙ d.0))
          (misses table h.objects id b n)
