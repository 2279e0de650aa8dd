-- ===== src/Pages/Counted.antt =====
-- The counts that the page shows.
use sentinel_project.Base.{
  All, List, [], arith, if◌then◌else◌, inl, inr, none, refl, some, ◌+◌, ◌∷◌, ◌≡◌, ◌⊎◌,
}
use sentinel_project.Monitors.Dto.{MonitorResponse}
use sentinel_project.Pages.Messages.{count_monitors}

-- A monitor whose state the page knows, and whose last result it knows where the monitor is active.
abbrev pub IsShownState : MonitorResponse → Type 0
IsShownState m =
    (m.state ≡ "Paused")
    ⊎ ((m.state ≡ "Active")
        × ((m.last_state ≡ none)
            ⊎ (m.last_state ≡ some "healthy")
            ⊎ (m.last_state ≡ some "unhealthy")))

-- Where each monitor is paused, or active with a result that is healthy, unhealthy or still
-- missing, the four counts sum to the total: each monitor is counted once.
pub count_monitors-sum :
    (ms : List MonitorResponse)
    → All IsShownState ms
    → let counts = count_monitors ms in
      counts.healthy + counts.unhealthy + counts.pending + counts.paused ≡ counts.total
unfolding count_monitors
count_monitors-sum [] h = refl
count_monitors-sum (m ∷ ms) h =
    let rest = count_monitors-sum ms h.1 in
    elim h.0 [
      | inl e ↦ rw (e, if◌then◌else◌) (omega (arith, rest))
      | inr (e, inl f) ↦ rw (e, f, if◌then◌else◌) (omega (arith, rest))
      | inr (e, inr (inl f)) ↦ rw (e, f, if◌then◌else◌) (omega (arith, rest))
      | inr (e, inr (inr f)) ↦ rw (e, f, if◌then◌else◌) (omega (arith, rest))
    ]
