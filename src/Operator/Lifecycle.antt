-- ===== src/Operator/Lifecycle.antt =====
-- `Run` of AVS/internal/operator/operator.go as one pass over its parts.
use sync_hook.Prelude.{
  ℕ, refl, sym, ap, ◌∙◌, List, [], ◌∷◌, ◌++◌, map, Option, none, some, Bool, true, false, ◌&&◌, ◌≡◌,
  if◌then◌else◌, ok, and_then, arith, Bool-cases, inl, inr,
}
use mathlib.Core.Path.{fun_ext}
use mathlib.Core.List.{append_assoc, append-nil}
use sync_hook.Operator.{
  Part, database, eigen_layer, chain, Event, started, stopped, failed, working, Frame, Started,
  start, start_chains, leave, run,
}

-- All parts in the order in which they are started.
abbrev pub parts : List ℕ → List Part
parts ids = database ∷ (map chain ids ++ (eigen_layer ∷ []))

-- A run in which the start of each part is paired with its stop: what stands between the two is the run of
-- the parts after it.
pub nested : (Part → Bool) → List Part → List Event × Option Part
nested starts [] = (working ∷ [], none)
nested starts (p ∷ ps) =
    let (events, failure) = nested starts ps in
    if starts p
    then (started p ∷ (events ++ (stopped p ∷ [])), failure)
    else (failed p ∷ [], some p)

-- Whether every part of a list starts.
abbrev pub all_start : (Part → Bool) → List Part → Bool
all_start starts [] = true
all_start starts (p ∷ ps) = starts p && all_start starts ps

pub nested-all_start :
    (starts : Part → Bool) (ps : List Part)
    → all_start starts ps ≡ true
    → (nested starts ps).1 ≡ none
unfolding nested
nested-all_start starts [] h = refl
nested-all_start starts (p ∷ ps) h = ground (arith, nested-all_start starts ps)

pub nested-some :
    (starts : Part → Bool) (ps : List Part)
    → all_start starts ps ≡ false
    → (p : Part) × ((nested starts ps).1 ≡ some p)
unfolding nested
nested-some starts [] h = absurd (ground arith)
nested-some starts (p ∷ ps) h = elim (Bool-cases (starts p)) [
  | inl up ↦ let (q, e) = nested-some starts ps (rw up at h) in (q, rw up e)
  | inr down ↦ (p, rw down refl)
]

-- The starts of a list of parts.
start_all : (Part → Bool) → List Part → Frame → Started
start_all starts [] f = ok f
start_all starts (p ∷ ps) f = and_then (start starts p f) (start_all starts ps)

start_chains-start_all :
    (starts : Part → Bool) (ids : List ℕ) (f : Frame)
    → and_then (start_chains starts ids f) (start starts eigen_layer)
      ≡ start_all starts (map chain ids ++ (eigen_layer ∷ [])) f
unfolding start_chains start_all
start_chains-start_all starts [] f = ground arith
start_chains-start_all starts (id ∷ ids) f = elim (Bool-cases (starts (chain id))) [
  | inl up ↦ rw up (start_chains-start_all starts ids _)
  | inr down ↦ rw down refl
]

leave-start_all :
    (starts : Part → Bool) (ps : List Part) (f : Frame)
    → leave (start_all starts ps f)
      ≡ (f.events ++ ((nested starts ps).0 ++ map stopped f.deferred), (nested starts ps).1)
unfolding start_all nested
leave-start_all starts [] f = refl
leave-start_all starts (p ∷ ps) f = elim (Bool-cases (starts p)) [
  | inl up ↦ rw up (
      leave-start_all starts ps _
      ∙ ap (λ x. (x, (nested starts ps).1))
          (append_assoc f.events (started p ∷ []) _
            ∙ ap (λ x. f.events ++ (started p ∷ x))
                (sym
                  (append_assoc (nested starts ps).0 (stopped p ∷ []) (map stopped f.deferred)))))
  | inr down ↦
      rw down
        (ap (λ x. (x, some p)) (append_assoc f.events (failed p ∷ []) (map stopped f.deferred)))
]

-- Whichever parts fail to start, `Run` starts the database, the chains in turn and the client of
-- EigenLayer, up to the first that fails; it does its work only if all have started; and before it returns
-- it stops exactly those that it has started, the last one first. The error is that of the part that
-- failed.
pub run-nested : (starts : Part → Bool) (ids : List ℕ) → run starts ids ≡ nested starts (parts ids)
unfolding run start_all
run-nested starts ids =
    let frame : Frame = record { events = []; deferred = [] } in
    ap (λ k. leave (and_then (start starts database frame) k))
      (fun_ext (start_chains-start_all starts ids))
    ∙ leave-start_all starts (parts ids) frame
    ∙ ap (λ x. (x, (nested starts (parts ids)).1)) (append-nil (nested starts (parts ids)).0)
