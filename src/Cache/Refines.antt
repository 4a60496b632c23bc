-- ===== src/Cache/Refines.antt =====
-- The map and the slice of lruCache (pkg/cache/local.go) hold a recency list, operation by operation.
use ling_framework.Base.{
  ◌≡◌, refl, sym, ap, subst, ◌∙◌, inl, inr, Bool, true, false, none, some, [], ◌∷◌, ◌++◌, arith,
  Str, str_comparable, length, member, Distinct, Option-cases, ==-refl, if◌then◌else◌,
}
use ling_framework.Base.Dict.{
  keys, fetch, store, delete, is_some, fetch-store, fetch-delete, member-keys,
}
use ling_framework.Base.Dict.Laws
use ling_framework.Base.Dict.Laws.{remove_first, add_last}
use ling_framework.Base.Int.{ℤ, pos, leb_ℤ}
use ling_framework.Cache.{
  CacheItem, LruCache, update_access_order, lru_delete, evict_first, evict_lru, drop_old, make_room,
  lru_set,
}
use ling_framework.Cache.Recency.{Entries, use_entry, without_first, with_room, set_entry}

-- The slice is the order of the list, the map has its entries, and no key stands twice in either.
pub record Represents {V : Type 0} (c : LruCache V) (l : Entries V) : Type 0 where
  pub order : c.order ≡ keys l
  pub same : (k : Str) → fetch c.items k ≡ fetch l k
  pub distinct : Distinct (keys l)
  pub distinct_items : Distinct (keys c.items)
  pub size : length c.items ≡ length l

module _ {V : Type 0} where
  pub lru_delete-Represents :
      (key : Str) (c : LruCache V) (l : Entries V)
      → Represents c l
      → Represents (lru_delete key c) (delete l key)
  unfolding lru_delete
  lru_delete-Represents key c l r = record {
    order = rw r.order (sym (Laws.keys-delete l key r.distinct));
    same = λ k. rw (fetch-delete, fetch-delete, r.same k);
    distinct = Laws.delete-Distinct l key r.distinct;
    distinct_items = Laws.delete-Distinct c.items key r.distinct_items;
    size = ground (
      arith,
      Laws.length-delete c.items key r.distinct_items,
      Laws.length-delete l key r.distinct,
      r.same key,
    );
  }

  -- A new entry behind all others, as lruCache.set writes it.
  add-Represents :
      (key : Str) (item : CacheItem V) (c : LruCache V) (l : Entries V)
      → Represents c l
      → fetch l key ≡ none
      → Represents
          (record c { items = store c.items key item; order = c.order ++ key ∷ [] })
          (add_last l key item)
  add-Represents key item c l r fresh = record {
    order = rw (r.order, Laws.keys-add_last);
    same = λ k. rw (fetch-store, Laws.fetch-add_last l key k item fresh, r.same k);
    distinct =
        rw Laws.keys-add_last
          (Laws.Distinct-append_last key (keys l) (rw (member-keys, fresh)) r.distinct);
    distinct_items = Laws.store-Distinct c.items key item r.distinct_items;
    size =
        ground
          (arith, Laws.length-store c.items key item, Laws.length-add_last l key item, r.same key);
  }

  pub use-Represents :
      (key : Str) (item : CacheItem V) (c : LruCache V) (l : Entries V)
      → Represents c l
      → fetch l key ≡ some item
      → Represents (update_access_order key c) (use_entry key item l)
  unfolding update_access_order
  use-Represents key item c l r found =
      let known : member key c.order ≡ true =
        ap (member key) r.order ∙ member-keys l key ∙ ap is_some found in
      let gone : fetch (delete l key) key ≡ none = rw (fetch-delete, ==-refl key) in
      rw known (record {
        order =
            rw (Laws.keys-add_last, Laws.keys-delete l key r.distinct)
              (ap (λ o. remove_first key o ++ key ∷ []) r.order);
        same = λ k. ground (
          arith,
          r.same k,
          Laws.fetch-add_last (delete l key) key k item gone,
          fetch-delete l key k,
          str_comparable.same_iff key k,
        );
        distinct = rw Laws.keys-add_last (
            Laws.Distinct-append_last key (keys (delete l key)) (rw (member-keys, gone))
              (Laws.delete-Distinct l key r.distinct));
        distinct_items = r.distinct_items;
        size = ground (
          arith,
          r.size,
          Laws.length-add_last (delete l key) key item,
          Laws.length-delete l key r.distinct,
        );
      })

  evict_first-Represents :
      (c : LruCache V) (l : Entries V)
      → Represents c l
      → Represents (evict_first (keys l) c) (without_first l)
  unfolding fetch
  evict_first-Represents c [] r = r
  evict_first-Represents c ((k, item) ∷ l) r = record {
    order = refl;
    same = λ j. ground (
      arith,
      r.same j,
      fetch-delete c.items k j,
      str_comparable.same_iff k j,
      member-keys l k,
      r.distinct.0,
    );
    distinct = r.distinct.1;
    distinct_items = Laws.delete-Distinct c.items k r.distinct_items;
    size =
        ground (arith, r.size, r.same k, ==-refl k, Laws.length-delete c.items k r.distinct_items);
  }

  evict_lru-Represents :
      (c : LruCache V) (l : Entries V) → Represents c l → Represents (evict_lru c) (without_first l)
  unfolding evict_lru
  evict_lru-Represents c l r =
      subst (λ o. Represents (evict_first o c) (without_first l)) (sym r.order)
        (evict_first-Represents c l r)

  room-Represents :
      (full : Bool) (c : LruCache V) (l : Entries V)
      → Represents c l
      → Represents (if full then evict_lru c else c) (if full then without_first l else l)
  room-Represents true c l r = evict_lru-Represents c l r
  room-Represents false c l r = r

  make_room-Represents :
      (c : LruCache V) (l : Entries V)
      → Represents c l
      → Represents (make_room c) (with_room c.max_size l)
  make_room-Represents c l r =
      subst
        (λ n. Represents (make_room c) (if leb_ℤ c.max_size (pos n) then without_first l else l))
        r.size (room-Represents (leb_ℤ c.max_size (pos (length c.items))) c l r)

  drop_old-Represents :
      (key : Str) (c : LruCache V) (l : Entries V)
      → Represents c l
      → Represents (drop_old key c) (delete l key)
  drop_old-Represents key c l r = elim (Option-cases (fetch c.items key)) [
    | inl new ↦ rw (new, Laws.delete_absent l key (sym (r.same key) ∙ new)) r
    | inr (item, old) ↦ rw old (lru_delete-Represents key c l r)
  ]

  drop_old-max_size : (key : Str) (c : LruCache V) → (drop_old key c).max_size ≡ c.max_size
  unfolding lru_delete
  drop_old-max_size key c = ground arith

  pub still_absent :
      (max_size : ℤ) (key : Str) (l : Entries V)
      → fetch l key ≡ none
      → fetch (with_room max_size l) key ≡ none
  unfolding fetch
  still_absent max_size key [] h = ground arith
  still_absent max_size key ((k, item) ∷ l) h = ground arith

  -- lruCache.set on a recency list: the old entry of the key goes, then the least recently used
  -- one if the list is still full, and the new entry comes last.
  pub lru_set-Represents :
      (key : Str) (item : CacheItem V) (c : LruCache V) (l : Entries V)
      → Represents c l
      → Represents (lru_set key item c) (set_entry c.max_size key item l)
  unfolding lru_set
  lru_set-Represents key item c l r =
      let c' = drop_old key c in
      let absent : fetch (delete l key) key ≡ none = rw (fetch-delete, ==-refl key) in
      subst (λ m. Represents (lru_set key item c) (set_entry m key item l))
        (drop_old-max_size key c)
        (add-Represents key item (make_room c') (with_room c'.max_size (delete l key))
          (make_room-Represents c' (delete l key) (drop_old-Represents key c l r))
          (still_absent c'.max_size key (delete l key) absent))
