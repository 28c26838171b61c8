-- ===== src/Persisted/Accumulate.antt =====
-- The stores that are summed up on the way back through the trace (src/BugFixer.cpp,
-- `handleAssertPersisted`, the loop over `unadded`).
use hippocrates.Base.{
  ℕ, zero, suc, ◌+◌, Option, none, some, List, [], ◌∷◌, ◌++◌, length, if◌then◌else◌, Outcome, ok,
  aborted, ◌>>=◌,
}
use hippocrates.Address.{AddressInfo, can_add, add}

-- A range that stays in front of the list.
unfoldable pub keep :
    AddressInfo → Option (AddressInfo × List AddressInfo) → Option (AddressInfo × List AddressInfo)
keep u none = none
keep u (some (info, us)) = some (info, u ∷ us)

-- The first range in the list that can be added, and the list without it.
unfoldable pub absorb :
    AddressInfo → List AddressInfo → Outcome (Option (AddressInfo × List AddressInfo))
unfolding can_add add keep
absorb info [] = ok none
absorb info (u ∷ us) = do
  fits ← can_add info u
  let later = absorb info us
  if fits then (do info' ← add info u; ok (some (info', us))) else (do r ← later; ok (keep u r))

-- The `while` loop. Each round takes one range out, so its length is fuel enough.
unfoldable pub absorb_all :
    ℕ → AddressInfo → List AddressInfo → Outcome (AddressInfo × List AddressInfo)
unfolding absorb
absorb_all zero info us = ok (info, us)
absorb_all (suc n) info us = elim (absorb info us) [
  | aborted ↦ aborted
  | ok none ↦ ok (info, us)
  | ok (some (info', us')) ↦ absorb_all n info' us'
]

-- One more store: added, or kept for later, and then all that can be added is.
unfoldable pub accumulate :
    AddressInfo → List AddressInfo → AddressInfo → Outcome (AddressInfo × List AddressInfo)
unfolding absorb_all can_add add
accumulate info unadded addr = do
  fits ← can_add info addr
  if fits
      then (do info' ← add info addr; absorb_all (length unadded) info' unadded)
      else absorb_all (length unadded + 1) info (unadded ++ (addr ∷ []))
