-- ===== src/Hub/Consistent.antt =====
-- The tables of the hub agree (pkg/websocket/websocket.go and connection.go).
use ling_framework.Base.{
  ℕ, ◌≡◌, refl, sym, ap, ◌∙◌, Bool, true, false, ◌&&◌, Option, none, some, Str, str_comparable,
  member, nat_beq, nat_beq_iff, ◌==◌, Bool-cases, if◌then◌else◌, inl, inr, subst,
}
use ling_framework.Base.Dict.{fetch}
use ling_framework.Hub.{Connection, Hub, Objects, put_object, shard_index}
use ling_framework.Hub.Index.{in_index, not_empty}

-- What is registered under an id.
abbrev pub holder : Hub → Str → Option ℕ
holder h id = fetch h.connections id

abbrev pub has_user : Objects → Str → Option ℕ → Bool
has_user objects user none = false
has_user objects user (some at) = not_empty user && (objects at).user_id == user

-- No two connections have one id.
abbrev pub UniqueIds : Objects → Type 0
UniqueIds objects = (a b : ℕ) → (objects a).id ≡ (objects b).id → a ≡ b

pub record IsConsistent (h : Hub) : Type 0 where
  pub unique : UniqueIds h.objects
  pub own_id : (id : Str) (at : ℕ) → holder h id ≡ some at → (h.objects at).id ≡ id
  pub by_user :
      (user id : Str) → in_index h.user_connections user id ≡ has_user h.objects user (holder h id)
  pub by_group :
      (group : Str) (at : ℕ)
      → holder h (h.objects at).id ≡ some at
      → in_index h.group_connections group (h.objects at).id ≡ member group (h.objects at).groups
  pub in_group :
      (group : Str) (at : ℕ)
      → in_index h.group_connections group (h.objects at).id ≡ true
      → member group (h.objects at).groups ≡ true
  pub by_shard :
      (i : ℕ) (id : Str)
      → fetch (h.shard_conns i) id
        ≡ (if nat_beq (shard_index h.config.shard_count id) i then holder h id else none)
  pub open_send : (id : Str) (at : ℕ) → holder h id ≡ some at → (h.objects at).send_closed ≡ false
  pub calm : h.panicked ≡ false

-- A part of the objects that a change at one address leaves as it is.
pub put_object-keeps :
    {A : Type 0} (part : Connection → A) (objects : Objects) (at : ℕ) (c : Connection)
    → part c ≡ part (objects at)
    → (b : ℕ) → part (put_object at c objects b) ≡ part (objects b)
put_object-keeps part objects at c h b = elim (Bool-cases (nat_beq at b)) [
  | inl e ↦ rw e (h ∙ ap (λ w. part (objects w)) ((nat_beq_iff at b).0 e))
  | inr e ↦ rw e refl
]

pub same_owner :
    (before after : Objects) (user : Str) (found : Option ℕ)
    → ((b : ℕ) → (after b).user_id ≡ (before b).user_id)
    → has_user after user found ≡ has_user before user found
same_owner before after user none s = refl
same_owner before after user (some at) s = ap (λ w. not_empty user && w == user) (s at)

pub unique_after :
    (before after : Objects)
    → ((b : ℕ) → (after b).id ≡ (before b).id)
    → UniqueIds before
    → UniqueIds after
unique_after before after s u a b e = u a b (sym (s a) ∙ e ∙ s b)

-- The objects differ in nothing that the tables speak of.
abbrev pub SameShape : Objects → Objects → Type 0
SameShape before after =
    (at : ℕ)
    → ((after at).id ≡ (before at).id)
      × ((after at).user_id ≡ (before at).user_id)
      × ((after at).groups ≡ (before at).groups)
      × ((after at).send_closed ≡ (before at).send_closed)

abbrev pub Alike : Connection → Connection → Type 0
Alike c d =
    (d.id ≡ c.id)
    × (d.user_id ≡ c.user_id)
    × (d.groups ≡ c.groups)
    × (d.send_closed ≡ c.send_closed)

pub SameShape-put_object :
    (objects : Objects) (at : ℕ) (c : Connection)
    → Alike (objects at) c
    → SameShape objects (put_object at c objects)
SameShape-put_object objects at c h other = elim (Bool-cases (nat_beq at other)) [
  | inl e ↦
      let same : at ≡ other = (nat_beq_iff at other).0 e in
      rw e (subst (λ w. Alike (objects w) c) same h)
  | inr e ↦ rw e (refl, refl, refl, refl)
]

pub change-IsConsistent :
    (h : Hub) (objects : Objects) (p : Bool)
    → IsConsistent h
    → SameShape h.objects objects
    → p ≡ false
    → IsConsistent (record h { objects = objects; panicked = p })
change-IsConsistent h objects p c s e = record {
  unique = unique_after h.objects objects (λ at. (s at).0) c.unique;
  own_id = λ id at held. (s at).0 ∙ c.own_id id at held;
  by_user = λ user id.
      c.by_user user id ∙ sym (same_owner h.objects objects user (holder h id) (λ at. (s at).1));
  by_group = λ group at held.
      ap (in_index h.group_connections group) (s at).0
      ∙ c.by_group group at (ap (holder h) (sym (s at).0) ∙ held)
      ∙ ap (member group) (sym (s at).2);
  in_group = λ group at inside.
      ap (member group) (s at).2
      ∙ c.in_group group at (ap (in_index h.group_connections group) (sym (s at).0) ∙ inside);
  by_shard = c.by_shard;
  open_send = λ id at held. (s at).3 ∙ c.open_send id at held;
  calm = e;
}
