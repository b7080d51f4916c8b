-- ===== src/Limits.antt =====
-- backend-services/db-mcp-server/src/sql/limits.ts: the byte budget on a query's result.
pub mod Budget
mod Tests
use at_nova_platform.Prelude.{
  ℕ, zero, suc, ◌+◌, ◌/◌, Bool, true, false, ◌&&◌, List, Option, none, some, ltb, length, take,
  if◌then◌else◌,
}

pub record RowCapResult (Row : Type 0) : Type 0 where
  pub rows : List Row
  pub truncated : Bool

-- `bytes` is `Buffer.byteLength(JSON.stringify(…), 'utf8')`.
module _ {Row : Type 0} (bytes : List Row → ℕ) (max_bytes : ℕ) where
  -- The guard of the `while`.
  abbrev pub over_budget : List Row → Bool
  over_budget kept = ltb 0 (length kept) && ltb max_bytes (bytes kept)

  -- `kept.slice(0, Math.ceil(kept.length / 2))`
  abbrev pub halve : List Row → List Row
  halve kept = take ((length kept + 1) / 2) kept

  -- The loop, with fuel; `none` means that the fuel ran out.
  pub cap_from : ℕ → List Row → Bool → Option (RowCapResult Row)
  cap_from zero kept truncated = none
  cap_from (suc fuel) kept truncated =
      let rest = cap_from fuel (halve kept) true in
      if over_budget kept then rest else some (record { rows = kept; truncated = truncated })

  unfoldable pub cap_result_bytes : ℕ → List Row → Option (RowCapResult Row)
  unfolding cap_from
  cap_result_bytes fuel rows = cap_from fuel rows false
