-- ===== src/SnManager/Gateway/Window.antt =====
-- The windows of gateway errors, over whole histories.
use supernode.Base.{
  ℕ, ◌+◌, ◌≤◌, ◌<◌, ◌≡◌, Bool, true, false, none, some, List, [], ◌∷◌, leb, if◌then◌else◌, length,
  All, arith,
}
use supernode.SnManager.Gateway.{GatewayErrors, window, handle_gateway_error}

-- The errors at the given times, one after another, and whether any call wrote the marker.
abbrev pub errors_at : GatewayErrors → List ℕ → GatewayErrors × Bool
errors_at u [] = (u, false)
errors_at u (t ∷ ts) =
    let (u', wrote) = handle_gateway_error u t in
    let (last, later) = errors_at u' ts in (last, if wrote then true else later)

abbrev InWindow : ℕ → ℕ → Type 0
InWindow start t = t < start + window

within_window :
    (start count : ℕ) (ts : List ℕ)
    → All (InWindow start) ts
    → errors_at (record { count = count; window_start = some start }) ts
      ≡ (record { count = count + length ts; window_start = some start }, false)
unfolding handle_gateway_error
within_window start count [] h = ground arith
within_window start count (t ∷ ts) h = ground (arith, within_window start (count + 1) ts h.1)

-- A first error at `start` and further ones within 5 minutes write no marker. The next error, at
-- or past the end of these 5 minutes, writes the restart marker exactly if there were at least 3
-- errors in the window, and in either case opens a new window with one error.
pub handle_gateway_error-window :
    (u : GatewayErrors) (start next : ℕ) (ts : List ℕ)
    → u.window_start ≡ none
    → All (InWindow start) ts
    → start + window ≤ next
    → (after : GatewayErrors) × (errors_at u (start ∷ ts) ≡ (after, false))
      × (handle_gateway_error after next
          ≡ (record { count = 1; window_start = some next }, leb 3 (length (start ∷ ts))))
unfolding handle_gateway_error
handle_gateway_error-window u start next ts fresh h late = (
  record { count = 1 + length ts; window_start = some start },
  ground (arith, within_window start 1 ts h),
  ground arith,
)
