-- ===== src/Cache/Recency.antt =====
-- What a least-recently-used cache promises: its entries in one list, the least recently used first.
use ling_framework.Base.{Option, none, some, [], ◌∷◌, Str, str_comparable, length, if◌then◌else◌}
use ling_framework.Base.Dict.{Dict, fetch, store, delete}
use ling_framework.Base.Dict.Laws.{add_last}
use ling_framework.Base.Int.{ℤ, pos, leb_ℤ}
use ling_framework.Base.Time.{Time}
use ling_framework.Cache.{CacheItem, is_expired}

abbrev pub Entries : Type 0 → Type 0
Entries V = Dict Str (CacheItem V)

module _ {V : Type 0} where
  -- A use of an entry: it becomes the most recent one.
  abbrev pub use_entry : Str → CacheItem V → Entries V → Entries V
  use_entry key item l = add_last (delete l key) key item

  abbrev pub without_first : Entries V → Entries V
  without_first [] = []
  without_first (e ∷ l) = l

  abbrev pub with_room : ℤ → Entries V → Entries V
  with_room max_size l = if leb_ℤ max_size (pos (length l)) then without_first l else l

  abbrev pub set_entry : ℤ → Str → CacheItem V → Entries V → Entries V
  set_entry max_size key item l = add_last (with_room max_size (delete l key)) key item

  abbrev pub judge_entry :
      Time → Str → Entries V → Option (CacheItem V) → Option (CacheItem V) × Entries V
  judge_entry now key l none = (none, l)
  judge_entry now key l (some item) =
      if is_expired now item then (none, delete l key) else (some item, use_entry key item l)

  abbrev pub live_entry : Time → Str → Entries V → Option (CacheItem V) × Entries V
  live_entry now key l = judge_entry now key l (fetch l key)

  abbrev pub touch_entry : Time → Str → CacheItem V → Entries V → Entries V
  touch_entry now key item l = store l key (record item { last_access = now })
