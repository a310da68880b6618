-- ===== src/SnManager/Gateway.antt =====
-- sn-manager/internal/updater/updater.go: `ShouldUpdate`, `isGatewayIdle` and `handleGatewayError`.
-- Times are numbers of nanoseconds. The updater's goroutine makes these calls one after another.
pub mod Policy
pub mod Window
use supernode.Base.{
  ℕ, ◌+◌, ◌-◌, ◌*◌, Bool, true, false, not, ◌&&◌, ◌||◌, Option, none, some, List, [], ◌∷◌, Bytes,
  bytes_eq, ltb, leb, ◌==◌, if◌then◌else◌,
}
use supernode.Base.Int.{ℤ, pos, ltb_ℤ, eq_ℤ, ◌+ℤ◌}
use supernode.SnManager.Version.{trim_v, cut, same_major, compare_versions, same}

-- `strings.Contains(s, c)` for a byte.
unfoldable pub has_byte : ℕ → Bytes → Bool
has_byte c [] = false
has_byte c (x ∷ xs) = x == c || has_byte c xs

unfoldable pub should_update : Bytes → Bytes → Bool
unfolding has_byte
should_update given_current given_latest =
    let current = trim_v given_current in
    let latest = trim_v given_latest in
    if has_byte b'-' latest
    then false
    else (let current_base = (cut b'-' current).0 in
        let latest_base = (cut b'-' latest).0 in
        if not (same_major current_base latest_base)
        then false
        else (let cmp = compare_versions current_base latest_base in
            if eq_ℤ cmp same && not (bytes_eq current current_base) then true else ltb_ℤ cmp same))

-- What the request for the status gives: no answer, or a code and a body, which may fail to be
-- read or decoded. A decoded body gives the task counts of the services.
pub data GatewayResponse : Type 0 where
  no_answer : GatewayResponse
  answer : ℕ → Option (List ℤ) → GatewayResponse

total_tasks : ℤ → List ℤ → ℤ
total_tasks total [] = total
total_tasks total (count ∷ rest) = total_tasks (total +ℤ count) rest

abbrev status_ok : ℕ
status_ok = 200

-- The results `(idle, isError)`.
unfoldable pub is_gateway_idle : GatewayResponse → Bool × Bool
unfolding total_tasks
is_gateway_idle no_answer = (false, true)
is_gateway_idle (answer code body) = if not (code == status_ok) then (false, true) else elim body [
  | none ↦ (false, true)
  | some counts ↦
      if ltb_ℤ (pos 0) (total_tasks (pos 0) counts) then (false, false) else (true, false)
]

abbrev pub window : ℕ
window = 5 * 60 * 1_000_000_000

abbrev retries : ℕ
retries = 3

-- `gwErrCount` and `gwErrWindowStart`, where `none` is the zero time.
pub record GatewayErrors : Type 0 where
  pub count : ℕ
  pub window_start : Option ℕ

-- The new state, and whether the restart marker is written. A failing write is only logged. Where
-- `now` lies before the start, the elapsed time is below the window, as 0 is.
pub handle_gateway_error : GatewayErrors → ℕ → GatewayErrors × Bool
handle_gateway_error u now = elim u.window_start [
  | none ↦ (record { count = 1; window_start = some now }, false)
  | some start ↦
      if leb window (now - start)
      then (record { count = 1; window_start = some now }, leb retries u.count)
      else (record u { count = u.count + 1 }, false)
]
