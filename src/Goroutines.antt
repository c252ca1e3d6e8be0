-- ===== src/Goroutines.antt =====
-- How a service of AVS/internal runs its loops: `Start` adds each routine to a wait group and starts it,
-- waits until its context is cancelled, and then for the wait group. So do `Monitor` of
-- internal/monitor/monitor.go, with a routine for each chain, and `Rebalancer` of
-- internal/rebalancer/rebalancer.go, with one routine. A tick of a routine asks nodes under no context of
-- its own, so it lasts until they have answered.
use sync_hook.Prelude.{
  ℕ, zero, suc, ◌+◌, ◌-◌, ◌*◌, ◌≤◌, ◌<◌, ◌≡◌, refl, List, [], ◌∷◌, Bool, true, arith, ◌⊎◌, inl, inr,
}

-- Where `Start` stands: it is not called yet, it has so many routines to start, it waits for the end of
-- its context, it waits for the wait group, or it has returned.
pub data Phase : Type 0 where
  unstarted waiting draining returned : Phase
  launching : ℕ → Phase

-- A routine waits in its loop, is in the body of a tick, or has ended.
pub data Routine : Type 0 where
  looping ticking ended : Routine

-- `counter` is that of the wait group.
pub record Group : Type 0 where
  pub phase : Phase
  pub routines : List Routine
  pub counter : ℕ

abbrev pub no_group : Group
no_group = record { phase = unstarted; routines = []; counter = 0 }

-- One of the routines goes from one state to another.
pub data Turns (r r' : Routine) : List Routine → List Routine → Type 0 where
  first : {rs : List Routine} → Turns r r' (r ∷ rs) (r' ∷ rs)
  later : {s : Routine} {rs rs' : List Routine} → Turns r r' rs rs' → Turns r r' (s ∷ rs) (s ∷ rs')

-- A move of the service, under a context that is `done` or not, other than the beginning of a tick. A
-- routine looks at the context between two ticks, and calls `Done` when it ends.
pub data GroupMove (done : Bool) (g : Group) : Group → Type 0 where
  spawned :
      {n : ℕ}
      → g.phase ≡ launching (suc n)
      → GroupMove done g
          (record { phase = launching n; routines = looping ∷ g.routines; counter = suc g.counter })
  launched : g.phase ≡ launching 0 → GroupMove done g (record g { phase = waiting })
  routine_ended :
      {rs : List Routine}
      → done ≡ true
      → Turns looping ended g.routines rs
      → GroupMove done g (record g { routines = rs; counter = g.counter - 1 })
  tick_returned :
      {rs : List Routine}
      → Turns ticking looping g.routines rs
      → GroupMove done g (record g { routines = rs })
  noticed : done ≡ true → g.phase ≡ waiting → GroupMove done g (record g { phase = draining })
  drained : g.phase ≡ draining → g.counter ≡ 0 → GroupMove done g (record g { phase = returned })

-- How many routines have not ended.
abbrev pub alive : List Routine → ℕ
alive [] = 0
alive (looping ∷ rs) = suc (alive rs)
alive (ticking ∷ rs) = suc (alive rs)
alive (ended ∷ rs) = alive rs

-- How many moves they have left, if none begins a tick: the tick that one is in returns, and may leave a
-- goroutine behind, which ends; and the routine ends.
abbrev pub work : List Routine → ℕ
work [] = 0
work (looping ∷ rs) = suc (work rs)
work (ticking ∷ rs) = 3 + work rs
work (ended ∷ rs) = work rs

-- How many moves the phase has left, with those of the routines still to be started.
abbrev pub phase_moves : Phase → ℕ
phase_moves unstarted = 0
phase_moves (launching n) = n * 2 + 3
phase_moves waiting = 2
phase_moves draining = 1
phase_moves returned = 0

abbrev pub group_moves : Group → ℕ
group_moves g = phase_moves g.phase + work g.routines

-- Whether `Start` is under way.
abbrev pub under_way : Phase → ℕ
under_way unstarted = 0
under_way (launching n) = 1
under_way waiting = 1
under_way draining = 1
under_way returned = 0

-- The wait group counts the routines that have not ended; outside `Start` there is none.
pub record IsCounted (g : Group) : Type 0 where
  pub counts : g.counter ≡ alive g.routines
  pub quiet : under_way g.phase ≡ 0 → alive g.routines ≡ 0

-- A routine that ends, one whose tick returns, and one that begins a tick.
pub ended-alive :
    {rs rs' : List Routine}
    → Turns looping ended rs rs'
    → (alive rs ≡ suc (alive rs')) × (work rs ≡ suc (work rs'))
ended-alive first = (refl, refl)
ended-alive (later {s = looping} e) = ground (arith, ended-alive e)
ended-alive (later {s = ticking} e) = ground (arith, ended-alive e)
ended-alive (later {s = ended} e) = ended-alive e

pub returned-alive :
    {rs rs' : List Routine}
    → Turns ticking looping rs rs'
    → (alive rs ≡ alive rs') × (work rs ≡ 2 + work rs') × (0 < alive rs)
returned-alive first = (refl, omega arith, omega arith)
returned-alive (later {s = looping} e) = ground (arith, returned-alive e)
returned-alive (later {s = ticking} e) = ground (arith, returned-alive e)
returned-alive (later {s = ended} e) = returned-alive e

pub began-alive :
    {rs rs' : List Routine}
    → Turns looping ticking rs rs'
    → (alive rs ≡ alive rs') × (2 + work rs ≡ work rs') × (0 < alive rs)
began-alive first = (refl, omega arith, omega arith)
began-alive (later {s = looping} e) = ground (arith, began-alive e)
began-alive (later {s = ticking} e) = ground (arith, began-alive e)
began-alive (later {s = ended} e) = began-alive e

pub work-alive : (rs : List Routine) → alive rs ≡ 0 → work rs ≡ 0
work-alive [] h = refl
work-alive (looping ∷ rs) h = absurd (omega arith)
work-alive (ticking ∷ rs) h = absurd (omega arith)
work-alive (ended ∷ rs) h = work-alive rs h

pub alive-work : (rs : List Routine) → work rs ≡ 0 → alive rs ≡ 0
alive-work [] h = refl
alive-work (looping ∷ rs) h = absurd (omega arith)
alive-work (ticking ∷ rs) h = absurd (omega arith)
alive-work (ended ∷ rs) h = alive-work rs h

-- A routine that has not ended can end, or the tick that it is in can return.
pub alive-Turns :
    (rs : List Routine)
    → 0 < alive rs
    → ((rs' : List Routine) × Turns looping ended rs rs')
      ⊎ ((rs' : List Routine) × Turns ticking looping rs rs')
alive-Turns [] h = absurd (omega arith)
alive-Turns (looping ∷ rs) h = inl (ended ∷ rs, first)
alive-Turns (ticking ∷ rs) h = inr (looping ∷ rs, first)
alive-Turns (ended ∷ rs) h = elim (alive-Turns rs h) [
  | inl (rs', e) ↦ inl (ended ∷ rs', later e)
  | inr (rs', e) ↦ inr (ended ∷ rs', later e)
]

pub GroupMove-IsCounted :
    {done : Bool} {g h : Group} → GroupMove done g h → IsCounted g → IsCounted h
GroupMove-IsCounted (spawned e) c = ground arith
GroupMove-IsCounted (launched e) c = ground arith
GroupMove-IsCounted (routine_ended d e) c = ground (arith, ended-alive e)
GroupMove-IsCounted (tick_returned e) c = ground (arith, returned-alive e)
GroupMove-IsCounted (noticed d e) c = ground arith
GroupMove-IsCounted (drained e z) c = ground arith

-- Every move uses one up at least, and `Start` is under way before it.
pub GroupMove-group_moves :
    {done : Bool} {g h : Group}
    → GroupMove done g h
    → IsCounted g
    → (suc (group_moves h) ≤ group_moves g) × (under_way g.phase ≡ 1)
GroupMove-group_moves (spawned e) c = ground arith
GroupMove-group_moves (launched e) c = ground arith
GroupMove-group_moves (routine_ended d e) c = ground (arith, ended-alive e)
GroupMove-group_moves (tick_returned e) c = ground (arith, returned-alive e)
GroupMove-group_moves (noticed d e) c = ground arith
GroupMove-group_moves (drained e z) c = ground arith

-- While `Start` is under way and its context is cancelled, a move is possible.
pub under_way-GroupMove :
    (g : Group) → IsCounted g → under_way g.phase ≡ 1 → (h : Group) × GroupMove true g h
under_way-GroupMove g c u = by_phase g.phase refl
  where
    by_phase : (p : Phase) → g.phase ≡ p → (h : Group) × GroupMove true g h
    by_phase unstarted e = absurd (ground arith)
    by_phase (launching zero) e = (_, launched e)
    by_phase (launching (suc n)) e = (_, spawned e)
    by_phase waiting e = (_, noticed refl e)
    by_phase draining e = by_counter g.counter refl
      where
        by_counter : (n : ℕ) → g.counter ≡ n → (h : Group) × GroupMove true g h
        by_counter zero z = (_, drained e z)
        by_counter (suc n) s = elim (alive-Turns g.routines (ground (arith, c.counts))) [
          | inl (rs, end) ↦ (_, routine_ended refl end)
          | inr (rs, back) ↦ (_, tick_returned back)
        ]
    by_phase returned e = absurd (ground arith)
