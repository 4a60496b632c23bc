-- ===== src/Scheduler/Hash.antt =====
-- hashString and the method shouldExecute of Scheduler (pkg/scheduler/scheduler.go). `runes` are the
-- characters of a string in the order of its range; an int has 64 bits.
use ling_framework.Base.{ℕ, ◌*◌, ◌%◌, Bool, List, [], ◌∷◌, if◌then◌else◌}
use ling_framework.Base.Int.{ℤ, pos, ◌+ℤ◌, ◌-ℤ◌, ltb_ℤ, wrap64, sub_ℕ, pos_part, neg_part}

-- hash * 31, before it wraps.
abbrev pub times31 : ℤ → ℤ
times31 h = sub_ℕ (pos_part h * 31) (neg_part h * 31)

unfoldable pub hash_from : ℤ → List ℕ → ℤ
hash_from h [] = h
hash_from h (c ∷ cs) = hash_from (wrap64 (wrap64 (times31 h) +ℤ pos c)) cs

abbrev pub absolute : ℤ → ℤ
absolute h = if ltb_ℤ h (pos 0) then wrap64 (pos 0 -ℤ h) else h

-- hashString
unfoldable pub hash_string : List ℕ → ℤ
hash_string runes = absolute (hash_from (pos 0) runes)

-- Go's remainder: it has the sign of the dividend.
abbrev pub rem100 : ℤ → ℤ
rem100 h = sub_ℕ (pos_part h % 100) (neg_part h % 100)

-- shouldExecute, on the runes of the task's id and of the node's.
unfoldable pub should_execute : List ℕ → List ℕ → Bool
should_execute task_id node_id =
    ltb_ℤ (rem100 (hash_string task_id)) (rem100 (hash_string node_id) +ℤ pos 10)
