-- ===== src/Rpc/Pending.antt =====
-- include/copilot/jsonrpc.hpp: `pending_requests_`, the map from request ids to promises.
use copilot_cpp.Prelude.{
  ℕ, ◌+◌, ◌<◌, ◌≡◌, Bool, false, Option, none, some, List, [], ◌∷◌, ltb, leb, ◌==◌, if◌then◌else◌,
  arith,
}

-- `PendingRequest`; its promise is the one of the request `id`. No deadline is `time_point::max()`.
pub record Pending : Type 0 where
  pub id : ℕ
  pub deadline : Option ℕ

-- `PendingRequest(timeout)`, at the time `now`
unfoldable pub deadline_of : ℕ → ℕ → Option ℕ
deadline_of now timeout = if ltb 0 timeout then some (now + timeout) else none

-- `pending->deadline <= now`
unfoldable pub is_expired : ℕ → Pending → Bool
is_expired now p = elim p.deadline [ none ↦ false | some d ↦ leb d now ]

-- `find`, `erase`, and the entries that have or have not expired
unfoldable pub find : ℕ → List Pending → Option Pending
find id [] = none
find id (p ∷ ps) = if p.id == id then some p else find id ps

unfoldable pub erase : ℕ → List Pending → List Pending
erase id [] = []
erase id (p ∷ ps) = let rest = erase id ps in if p.id == id then rest else p ∷ rest

unfoldable pub expired : ℕ → List Pending → List Pending
expired now [] = []
expired now (p ∷ ps) = let rest = expired now ps in if is_expired now p then p ∷ rest else rest

unfoldable pub live : ℕ → List Pending → List Pending
live now [] = []
live now (p ∷ ps) = let rest = live now ps in if is_expired now p then rest else p ∷ rest

-- `pending_requests_[id] = pending`
unfoldable pub insert : Pending → List Pending → List Pending
unfolding erase
insert p ps = p ∷ erase p.id ps

-- How often an id stands in the map.
unfoldable pub count : ℕ → List Pending → ℕ
count id [] = 0
count id (p ∷ ps) = (if p.id == id then 1 else 0) + count id ps

pub count-erase :
    (id i : ℕ) (ps : List Pending) → count i (erase id ps) ≡ (if id == i then 0 else count i ps)
unfolding count erase
count-erase id i [] = ground arith
count-erase id i (p ∷ ps) = ground (arith, count-erase id i ps)

pub count-insert :
    (p : Pending) (i : ℕ) (ps : List Pending)
    → count i (insert p ps) ≡ (if p.id == i then 1 else count i ps)
unfolding count insert
count-insert p i ps = ground (arith, count-erase p.id i ps)

pub count-split :
    (now i : ℕ) (ps : List Pending) → count i (expired now ps) + count i (live now ps) ≡ count i ps
unfolding count expired live
count-split now i [] = omega arith
count-split now i (p ∷ ps) = ground (arith, count-split now i ps)

pub count-find : (id : ℕ) (ps : List Pending) (p : Pending) → find id ps ≡ some p → 0 < count id ps
unfolding count find
count-find id [] p h = ground arith
count-find id (q ∷ ps) p h = ground (arith, count-find id ps p)

pub find-none : (id : ℕ) (ps : List Pending) → find id ps ≡ none → count id ps ≡ 0
unfolding count find
find-none id [] h = omega arith
find-none id (q ∷ ps) h = ground (arith, find-none id ps)

pub find_id : (id : ℕ) (ps : List Pending) (p : Pending) → find id ps ≡ some p → p.id ≡ id
unfolding find
find_id id [] p h = ground arith
find_id id (q ∷ ps) p h = ground (arith, find_id id ps p)
